-- ===== src/Supporters/StepOrder.antt =====
-- The order of the steps of supporterNextSteps, src/supporters/supporter-match.rules.ts.
use mathlib.Core.List.{append_assoc}
use uncs_bot.Common.{
  All, Bool, Bool-cases, List, Option, [], arith, false, inl, inr, length, none, not, refl, some,
  true, truthy, ℕ, ◌&&◌, ◌++◌, ◌+◌, ◌/◌, ◌||◌, ◌∷◌, ◌≡◌, ◌≤◌,
}
use uncs_bot.Supporters.Steam.{SteamMatch, SteamMatchBlock, steam_on_another_record}
use uncs_bot.Supporters.NextSteps.{
  Area, NextStep, NextStepContext, NextStepRecord, Verdict, automatic_steps, because, discord_area,
  discord_steps, founder_steps, is_impossible, judged_steps, patron_link_conflict, steam_area,
  steam_step_of, steam_steps, step, supporter_next_steps, unlinked_steps, verdict_area, when_step,
}
use uncs_bot.Supporters.Founder.{no_identity, source_not_qualifying}
use uncs_bot.Supporters.Automatic.{AutomaticBlocked, by_steam, is_patreon}

-- Discord, then the SteamID, then payment and founder.
abbrev pub rank : Area → ℕ
rank discord_area = 0
rank steam_area = 1
rank _ = 2

-- Every step's rank is at least `low`, and no later step has a lower rank than an earlier one.
abbrev pub IsOrdered : ℕ → List NextStep → Type 0
IsOrdered low [] = Unit
IsOrdered low (s ∷ steps) = (low ≤ rank s.area) × IsOrdered (rank s.area) steps

-- How many steps are about payment or the founder promise.
abbrev pub judged : List NextStep → ℕ
judged [] = 0
judged (s ∷ steps) = (rank s.area / 2) + judged steps

IsOrdered-mono : (a b : ℕ) (steps : List NextStep) → a ≤ b → IsOrdered b steps → IsOrdered a steps
IsOrdered-mono a b [] le o = tt
IsOrdered-mono a b (s ∷ steps) le o = (omega arith, o.1)

-- Steps of one rank before steps of that rank or more.
IsOrdered-append :
    (low : ℕ) (xs ys : List NextStep)
    → All (λ s. rank s.area ≡ low) xs
    → IsOrdered low ys
    → IsOrdered low (xs ++ ys)
IsOrdered-append low [] ys e o = o
IsOrdered-append low (x ∷ xs) ys e o =
    (omega (arith, e.0), rw e.0 (IsOrdered-append low xs ys e.1 o))

judged-append : (xs ys : List NextStep) → judged (xs ++ ys) ≡ judged xs + judged ys
judged-append [] ys = omega arith
judged-append (x ∷ xs) ys = omega (arith, judged-append xs ys)

judged_none :
    (low : ℕ) (xs : List NextStep) → low ≤ 1 → All (λ s. rank s.area ≡ low) xs → judged xs ≡ 0
judged_none low [] le e = refl
judged_none low (x ∷ xs) le e = omega (arith, judged_none low xs le e.1, e.0)

discord_steps-rank :
    (r : NextStepRecord) (c : NextStepContext) → All (λ s. rank s.area ≡ 0) (discord_steps r c)
unfolding discord_steps
discord_steps-rank r c = ground arith

steam_step_of-rank :
    (reason : Option SteamMatchBlock) (fill : Bool)
    → All (λ s. rank s.area ≡ 1) (steam_step_of reason fill)
steam_step_of-rank (some reason) fill = (refl, tt)
steam_step_of-rank none true = (refl, tt)
steam_step_of-rank none false = (refl, tt)

unlinked_steps-rank :
    (steam : Option SteamMatch) (wanted fill : Bool)
    → All (λ s. rank s.area ≡ 1) (unlinked_steps steam wanted fill)
unlinked_steps-rank none wanted fill = tt
unlinked_steps-rank (some steam) true fill = steam_step_of-rank steam.reason fill
unlinked_steps-rank (some steam) false fill = tt

steam_steps-rank :
    (r : NextStepRecord) (c : NextStepContext) → All (λ s. rank s.area ≡ 1) (steam_steps r c)
unfolding steam_steps
steam_steps-rank r c = elim (Bool-cases (truthy r.steam_id)) [
  | inl linked ↦ rw (linked, All) (ground arith)
  | inr unlinked ↦
      rw (unlinked, All)
        (unlinked_steps-rank r.matched.steam (r.is_founder || not (is_impossible r.verdict))
          (is_patreon r.provider && c.steam_fill))
]

rank-verdict_area : (r : NextStepRecord) (v : Verdict) → rank (verdict_area r v) ≡ 2
unfolding verdict_area
rank-verdict_area r (because source_not_qualifying) = refl
rank-verdict_area r (because no_identity) = refl
rank-verdict_area r v = ground arith

-- At most one step, and of the last rank.
abbrev IsVerdictStep : List NextStep → Type 0
IsVerdictStep steps = All (λ s. rank s.area ≡ 2) steps × (length steps ≤ 1)

automatic_steps_one :
    (a : Option AutomaticBlocked) (c : NextStepContext) (before : List NextStep)
    → IsVerdictStep (automatic_steps a c before)
unfolding automatic_steps
automatic_steps_one (some (by_steam steam_on_another_record)) c before = ground arith
automatic_steps_one a c before = ground arith

judged_steps_one :
    (r : NextStepRecord) (v : Option Verdict) (c : NextStepContext) (before : List NextStep)
    → IsVerdictStep (judged_steps r v c before)
judged_steps_one r (some v) c before = ((rank-verdict_area r v, tt), omega arith)
judged_steps_one r none c before = ground (arith, automatic_steps_one r.automatic_blocked c before)

founder_steps_one :
    (r : NextStepRecord) (c : NextStepContext) (before : List NextStep)
    → IsVerdictStep (founder_steps r c before)
unfolding founder_steps
founder_steps_one r c before = ground (arith, judged_steps_one r r.verdict c before)

IsOrdered-of_rank :
    (low : ℕ) (xs : List NextStep) → All (λ s. rank s.area ≡ low) xs → IsOrdered low xs
IsOrdered-of_rank low [] e = tt
IsOrdered-of_rank low (x ∷ xs) e = (omega (arith, e.0), rw e.0 (IsOrdered-of_rank low xs e.1))

judged-length : (xs : List NextStep) → judged xs ≤ length xs
judged-length [] = omega arith
judged-length (x ∷ xs) = ground (arith, judged-length xs)

conflict_rank :
    (b : Bool) → All (λ s. rank s.area ≡ 0) (when_step b (step patron_link_conflict discord_area))
conflict_rank true = (refl, tt)
conflict_rank false = tt

abbrev pub steps_before : NextStepRecord → NextStepContext → List NextStep
steps_before r c =
    when_step r.conflict (step patron_link_conflict discord_area)
    ++ (discord_steps r c ++ steam_steps r c)

parts-IsOrdered :
    (xs ys zs ws : List NextStep)
    → All (λ s. rank s.area ≡ 0) xs
    → All (λ s. rank s.area ≡ 0) ys
    → All (λ s. rank s.area ≡ 1) zs
    → IsVerdictStep ws
    → IsOrdered 0 ((xs ++ (ys ++ zs)) ++ ws) × (judged ((xs ++ (ys ++ zs)) ++ ws) ≤ 1)
parts-IsOrdered xs ys zs ws x y z w =
    let late =
      IsOrdered-append 1 zs ws z
        (IsOrdered-mono 1 2 ws (omega arith) (IsOrdered-of_rank 2 ws w.0)) in
    (
      rw (append_assoc, append_assoc)
          (IsOrdered-append 0 xs (ys ++ (zs ++ ws)) x (
            IsOrdered-append 0 ys (zs ++ ws) y (IsOrdered-mono 0 1 (zs ++ ws) (omega arith) late))),
      omega (
        arith,
        judged-append (xs ++ (ys ++ zs)) ws,
        judged-append xs (ys ++ zs),
        judged-append ys zs,
        judged_none 0 xs (omega arith) x,
        judged_none 0 ys (omega arith) y,
        judged_none 1 zs (omega arith) z,
        judged-length ws,
        w.1,
      ),
    )

-- The steps come in the order Discord, SteamID, then payment and founder, and at most one of them is
-- about the payment or the founder promise.
pub supporter_next_steps-IsOrdered :
    (r : NextStepRecord) (c : NextStepContext)
    → IsOrdered 0 (supporter_next_steps r c) × (judged (supporter_next_steps r c) ≤ 1)
unfolding supporter_next_steps
supporter_next_steps-IsOrdered r c =
    parts-IsOrdered (when_step r.conflict (step patron_link_conflict discord_area))
      (discord_steps r c) (steam_steps r c) (founder_steps r c (steps_before r c))
      (conflict_rank r.conflict) (discord_steps-rank r c) (steam_steps-rank r c)
      (founder_steps_one r c (steps_before r c))
