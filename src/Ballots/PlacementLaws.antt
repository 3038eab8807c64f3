-- ===== src/Ballots/PlacementLaws.antt =====
-- Where a next-round choice ends up, and what stays where it was.
use uncs_bot.Common.{
  List, Option, [], ap, arith, get_elem?, length, none, refl, some, suc, true, zero, ℕ, ◌+◌, ◌<◌,
  ◌∙◌, ◌∷◌, ◌≡◌, ◌⊎◌,
}
use uncs_bot.Ballots.Placement.{MapNextPlan, holds, insert_at, same_entry, set, swap_found}
use uncs_bot.Ballots.Selection.{MapSelection}

module _ {ℓ} {A : Type ℓ} where
  length-insert_at : (i : ℕ) (a : A) (xs : List A) → length (insert_at i a xs) ≡ length xs + 1
  length-insert_at i a [] = omega arith
  length-insert_at zero a (x ∷ xs) = omega arith
  length-insert_at (suc i) a (x ∷ xs) = omega (arith, length-insert_at i a xs)

  length-set : (i : ℕ) (a : A) (xs : List A) → length (set i a xs) ≡ length xs
  length-set i a [] = refl
  length-set zero a (x ∷ xs) = refl
  length-set (suc i) a (x ∷ xs) = ap suc (length-set i a xs)

  length-swap_found :
      (i j : ℕ) (o o' : Option A) (xs : List A) → length (swap_found i j o o' xs) ≡ length xs
  length-swap_found i j (some a) (some b) xs = length-set j a (set i b xs) ∙ length-set i b xs
  length-swap_found i j (some a) none xs = refl
  length-swap_found i j none o' xs = refl

-- What a plan promises: the running row stays, and the row where the choice ends up holds it.
abbrev pub PlacesNext : List MapSelection → ℕ → MapSelection → MapNextPlan → Type 0
PlacesNext existing current entry plan =
    (get_elem? plan.entries current ≡ get_elem? existing current)
    × (holds (same_entry entry) (get_elem? plan.entries plan.slot) ≡ true)

-- A search result is a copy of the entry in the list, on the side the test names.
abbrev Copy : List MapSelection → MapSelection → ℕ → Type 0
Copy existing entry i =
    (i < length existing)
    × ((a : MapSelection) × (get_elem? existing i ≡ some a) × (same_entry entry a ≡ true))

-- The row that the game plays next: the one after the running row or, where the status reports it, the
-- first one after the last row.
abbrev pub PlaysNext : ℕ → ℕ → Option ℕ → ℕ → Type 0
PlaysNext length_ current reported slot =
    (slot ≡ current + 1) ⊎ ((current + 1 ≡ length_) × (reported ≡ some 0) × (slot ≡ 0))
