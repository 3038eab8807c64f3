-- ===== src/Community/Remembered.antt =====
-- How long src/server-community/community-rotation.ts remembers the variant that a player had.
use text.Mathlib.TextPositions.{eq_refl}
use uncs_bot.Common.{
  All, Bool-cases, List, Map, Option, String, [], arith, eq_iff, false, get, get-remove,
  get-remove_self, if◌then◌else◌, inl, inr, leb, length, length-remove, none, not, refl, remove,
  some, str_eq, subst, true, ℕ, ◌++◌, ◌+◌, ◌<◌, ◌∷◌, ◌≡◌, ◌≢◌, ◌≤◌,
}
use uncs_bot.Community.Rotation.{
  WelcomeHistory, forget_oldest, is_in, remembered, welcome_from, when_set,
}
use uncs_bot.Community.RotationLaws.{Choice, welcome_from-differs}

-- The entries from a player's own one on: how near the player is to the newest.
unfoldable behind : String → Map ℕ → ℕ
behind id [] = 0
behind id ((k, v) ∷ m) = let rest = behind id m in if str_eq k id then length m + 1 else rest

length-append_one : (m : Map ℕ) (e : String × ℕ) → length (m ++ (e ∷ [])) ≡ length m + 1
length-append_one [] e = refl
length-append_one (x ∷ m) e = omega (arith, length-append_one m e)

append-recalls :
    (id k : String) (v x : ℕ) (m : Map ℕ)
    → get id m ≡ some v
    → (get id (m ++ ((k, x) ∷ [])) ≡ some v) × (behind id (m ++ ((k, x) ∷ [])) ≤ behind id m + 1)
unfolding get behind
append-recalls id k v x [] h = absurd (cc)
append-recalls id k v x ((i, w) ∷ m) h = elim (Bool-cases (str_eq i id)) [
  | inl e ↦ (ground arith, ground (arith, length-append_one m (k, x)))
  | inr e ↦ let rest = append-recalls id k v x m (ground arith) in (ground arith, ground arith)
]

append-new :
    (id : String) (x : ℕ) (m : Map ℕ)
    → get id m ≡ none
    → (get id (m ++ ((id, x) ∷ [])) ≡ some x) × (behind id (m ++ ((id, x) ∷ [])) ≡ 1)
unfolding get behind
append-new id x [] h = rw (eq_refl id) (refl, refl)
append-new id x ((i, w) ∷ m) h = elim (Bool-cases (str_eq i id)) [
  | inl e ↦ absurd (ground arith)
  | inr e ↦ let rest = append-new id x m (ground arith) in (ground arith, ground arith)
]

behind-remove :
    (id k : String) (m : Map ℕ) → str_eq k id ≡ false → behind id (remove k m) ≤ behind id m
unfolding behind remove
behind-remove id k [] h = omega arith
behind-remove id k ((i, w) ∷ m) h =
    ground (arith, eq_iff i k, eq_iff i id, eq_iff k id, behind-remove id k m h, length-remove k m)

length-forget_oldest : (limit : ℕ) (m : Map ℕ) → length (forget_oldest limit m) ≤ length m
unfolding forget_oldest
length-forget_oldest limit [] = omega arith
length-forget_oldest limit ((i, w) ∷ m) = ground (arith, length-forget_oldest limit m)

forget-recalls :
    (limit : ℕ) (id : String) (v : ℕ) (m : Map ℕ)
    → get id m ≡ some v
    → behind id m ≤ limit
    → (get id (forget_oldest limit m) ≡ some v) × (behind id (forget_oldest limit m) ≤ behind id m)
unfolding get behind forget_oldest
forget-recalls limit id v [] h b = absurd (cc)
forget-recalls limit id v ((i, w) ∷ m) h b = elim (Bool-cases (str_eq i id)) [
  | inl e ↦ (ground arith, ground (arith, length-forget_oldest limit m))
  | inr e ↦
      let rest = forget-recalls limit id v m (ground arith) (ground arith) in
      (ground arith, ground arith)
]

-- The player's last variant is known, among the newest `n` players.
abbrev Recalls : String → ℕ → ℕ → WelcomeHistory → Type 0
Recalls id v n history = (get id history.by_player ≡ some v) × (behind id history.by_player ≤ n)

module _ (limit : ℕ) where
  abbrev pub welcomed : WelcomeHistory → Choice → WelcomeHistory × ℕ
  welcomed history c = welcome_from limit history c.choice_id c.choice_count c.choice_drawn

  -- A pool's history after some welcomes.
  unfoldable pub pool_after : WelcomeHistory → List Choice → WelcomeHistory
  pool_after history [] = history
  pool_after history (c ∷ choices) = pool_after (welcomed history c).0 choices

  welcomed-Recalls :
      (history : WelcomeHistory) (c : Choice)
      → 1 ≤ limit
      → Recalls c.choice_id (welcomed history c).1 1 (welcomed history c).0
  unfolding welcome_from remembered
  welcomed-Recalls history c h =
      let index = (welcomed history c).1 in
      let (g, b) =
        append-new c.choice_id index (remove c.choice_id history.by_player)
          (get-remove_self c.choice_id history.by_player) in
      let (g', b') = forget-recalls limit c.choice_id index _ g (omega arith) in (g', omega arith)

  other-Recalls :
      (history : WelcomeHistory) (c : Choice) (id : String) (v n : ℕ)
      → str_eq c.choice_id id ≡ false
      → n < limit
      → Recalls id v n history
      → Recalls id v (n + 1) (welcomed history c).0
  unfolding welcome_from remembered
  other-Recalls history c id v n o l (g, b) =
      let index = (welcomed history c).1 in
      let kept : get id (remove c.choice_id history.by_player) ≡ some v =
        rw (get-remove c.choice_id id history.by_player, o) g in
      let nearer = behind-remove id c.choice_id history.by_player o in
      let (g1, b1) =
        append-recalls id c.choice_id v index (remove c.choice_id history.by_player) kept in
      let (g2, b2) = forget-recalls limit id v _ g1 (omega arith) in (g2, omega arith)

  others-Recalls :
      (others : List Choice) (history : WelcomeHistory) (id : String) (v n : ℕ)
      → All (λ c. str_eq c.choice_id id ≡ false) others
      → n + length others ≤ limit
      → Recalls id v n history
      → get id (pool_after history others).by_player ≡ some v
  unfolding pool_after
  others-Recalls [] history id v n a l (g, b) = g
  others-Recalls (c ∷ others) history id v n (o, a) l recalls =
      others-Recalls others (welcomed history c).0 id v (n + 1) a (omega arith)
        (other-Recalls history c id v n o (omega arith) recalls)

  own_avoided :
      (prev count index : ℕ) (last : Option ℕ)
      → 2 ≤ count
      → not (is_in (when_set (leb 2 count) (some prev) ++ when_set (leb 3 count) last) index) ≡ true
      → index ≢ prev
  own_avoided prev count index none h n e = ground arith
  own_avoided prev count index (some b) h n e = ground arith

  -- A player who is welcomed again from the same pool, after fewer welcomes of others than it remembers
  -- players and with two variants or more to choose from, gets another variant than the time before,
  -- whatever is drawn, and one that is among those there are.
  pub welcomed-other_variant :
      (history : WelcomeHistory) (first again : Choice) (others : List Choice)
      → first.choice_id ≡ again.choice_id
      → All (λ c. str_eq c.choice_id first.choice_id ≡ false) others
      → length others < limit
      → 2 ≤ again.choice_count
      → ((welcomed (pool_after (welcomed history first).0 others) again).1
          ≢ (welcomed history first).1)
        × ((welcomed (pool_after (welcomed history first).0 others) again).1 < again.choice_count)
  welcomed-other_variant history first again others same a l h =
      let after = pool_after (welcomed history first).0 others in
      let known : get first.choice_id after.by_player ≡ some (welcomed history first).1 =
        others-Recalls others (welcomed history first).0 first.choice_id (welcomed history first).1
          1 a (omega arith) (welcomed-Recalls history first (omega arith)) in
      let (below, avoids) =
        welcome_from-differs limit after again.choice_id again.choice_count again.choice_drawn
          (omega arith) in
      let own : get again.choice_id after.by_player ≡ some (welcomed history first).1 =
        subst (λ id. get id after.by_player ≡ some (welcomed history first).1) same known in
      let other =
        own_avoided (welcomed history first).1 again.choice_count (welcomed after again).1
          after.last h
          (subst
            (λ o.
              not (
                is_in
                  (when_set (leb 2 again.choice_count) o
                    ++ when_set (leb 3 again.choice_count) after.last)
                  (welcomed after again).1)
              ≡ true)
            own avoids) in
      (other, below)
