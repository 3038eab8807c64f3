-- ===== src/Ballots/WinnerLaws.antt =====
-- The winner of a ballot has the most votes, and 50v50 wins alone or not at all.
use uncs_bot.Common.{
  All, All-map, Bool-cases, List, Option, [], any, ap, arith, false, find-All, get_elem?, inl, inr,
  leb, not, some, subst, suc, sym, true, zero, ℕ, ◌+◌, ◌<◌, ◌==◌, ◌∷◌, ◌≡◌, ◌≢◌, ◌≤◌, ◌⊎◌,
}
use uncs_bot.Ballots.Winner.{ballot_winner, is_index, leaders_from, maximum, settle}
use uncs_bot.Ballots.Policy.{VoteTieRule, first_option, keep_rotation}

abbrev pub Holds : List ℕ → ℕ → ℕ → Type 0
Holds counts i count = get_elem? counts i ≡ some count

maximum-bound : (i count : ℕ) (counts : List ℕ) → Holds counts i count → count ≤ maximum counts
unfolding maximum
maximum-bound i count [] h = absurd (cc)
maximum-bound zero count (c ∷ counts) h = ground (arith)
maximum-bound (suc i) count (c ∷ counts) h = ground (arith, maximum-bound i count counts h)

leaders_from_complete :
    (i index m : ℕ) (counts : List ℕ)
    → Holds counts i m
    → any (λ j. j == (index + i)) (leaders_from index m counts) ≡ true
unfolding leaders_from
leaders_from_complete i index m [] h = absurd (cc)
leaders_from_complete zero index m (c ∷ counts) h = ground (arith)
leaders_from_complete (suc i) index m (c ∷ counts) h =
    ground (arith, leaders_from_complete i (index + 1) m counts h)

-- A leader's place in the counts that start at `index`.
abbrev IsLeader : ℕ → ℕ → List ℕ → ℕ → Type 0
IsLeader index m counts j = (k : ℕ) × (j ≡ index + k) × Holds counts k m

leaders_from-All :
    (index m : ℕ) (counts : List ℕ) → All (IsLeader index m counts) (leaders_from index m counts)
unfolding leaders_from
leaders_from-All index m [] = tt
leaders_from-All index m (c ∷ counts) =
    let rest =
      All-map (IsLeader (index + 1) m counts) (IsLeader index m (c ∷ counts))
        (λ j (k, e, h). (suc k, omega arith, h)) (leaders_from (index + 1) m counts)
        (leaders_from-All (index + 1) m counts) in
    elim (Bool-cases (c == m)) [
      | inl e ↦ rw e ((0, omega arith, ground arith), rest)
      | inr e ↦ rw e rest
    ]

-- What a settled tie rule returns is a leader, and 50v50 only where it leads alone.
settle-leads :
    (P : ℕ → Type 0) (leaders : List ℕ) (tie_rule : VoteTieRule) (fifty : Option ℕ) (w : ℕ)
    → All P leaders
    → settle leaders tie_rule fifty ≡ some w
    → P w × ((leaders ≡ w ∷ []) ⊎ (is_index fifty w ≡ false))
unfolding settle
settle-leads P [] keep_rotation fifty w h e = absurd (cc)
settle-leads P [] first_option fifty w h e = absurd (cc)
settle-leads P (a ∷ []) tie_rule fifty w (p, h) e =
    let same : a ≡ w = ground arith in (subst P same p, inl (ap (λ x. x ∷ []) same))
settle-leads P (a ∷ b ∷ rest) keep_rotation fifty w h e = absurd (cc)
settle-leads P (a ∷ b ∷ rest) first_option fifty w h e =
    let (p, q) = find-All P (λ i. not (is_index fifty i)) (a ∷ b ∷ rest) w h e in
    (p, inr (ground arith))

-- A winner has votes and at least as many as every option. Where it is the 50v50 option, every other
-- option has fewer.
pub ballot_winner-leads :
    (counts : List ℕ) (tie_rule : VoteTieRule) (fifty : Option ℕ) (w : ℕ)
    → ballot_winner counts tie_rule fifty ≡ some w
    → (votes : ℕ) × Holds counts w votes
      × (0 < votes)
      × ((i count : ℕ) → Holds counts i count → count ≤ votes)
      × ((i count : ℕ) → Holds counts i count → is_index fifty w ≡ true → i ≢ w → count < votes)
unfolding ballot_winner
ballot_winner-leads counts tie_rule fifty w e =
    let m = maximum counts in
    elim (Bool-cases (leb m 0)) [
      | inl z ↦ absurd (ground arith)
      | inr z ↦
          let settled : settle (leaders_from 0 m counts) tie_rule fifty ≡ some w = ground arith in
          let ((k, at, h), alone) =
            settle-leads (IsLeader 0 m counts) (leaders_from 0 m counts) tie_rule fifty w
              (leaders_from-All 0 m counts) settled in
          let same : k ≡ w = omega arith in
          (
            m,
            rw (sym same) h,
            ground arith,
            (λ i count c. maximum-bound i count counts c),
            λ i count c f ne. elim alone [
              | inl one ↦
                  let fewer = maximum-bound i count counts c in
                  elim (Bool-cases (count == m)) [
                    | inl tied ↦
                        let tied_holds : Holds counts i m = ground arith in
                        let member = leaders_from_complete i 0 m counts tied_holds in
                        absurd (ground arith)
                    | inr less ↦ ground arith
                  ]
              | inr not_fifty ↦ absurd (cc)
            ],
          )
    ]
