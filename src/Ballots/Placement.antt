-- ===== src/Ballots/Placement.antt =====
-- `planMapNext` of src/admin/server-configuration.ts.
use uncs_bot.Common.{
  Bool, List, Option, [], false, get_elem?, if◌then◌else◌, leb, length, ltb, none, some, str_eq,
  suc, zero, ℕ, ◌&&◌, ◌+◌, ◌==◌, ◌∷◌,
}
use uncs_bot.Ballots.Selection.{MapSelection, format_rotation}

pub data Placement : Type 0 where
  already_next move swap insert append : Placement

pub record MapNextPlan : Type 0 where
  pub entries : List MapSelection
  pub next_slot : ℕ
  pub slot : ℕ
  pub placement : Placement

module _ {ℓ} {A : Type ℓ} where
  -- `list.splice(i, 1)`
  abbrev pub remove_at : ℕ → List A → List A
  remove_at i [] = []
  remove_at zero (x ∷ xs) = xs
  remove_at (suc i) (x ∷ xs) = x ∷ remove_at i xs

  -- `list.splice(i, 0, a)`: at the end where `i` is past it.
  abbrev pub insert_at : ℕ → A → List A → List A
  insert_at i a [] = a ∷ []
  insert_at zero a (x ∷ xs) = a ∷ x ∷ xs
  insert_at (suc i) a (x ∷ xs) = x ∷ insert_at i a xs

  -- `list[i] = a` in range.
  abbrev pub set : ℕ → A → List A → List A
  set i a [] = []
  set zero a (x ∷ xs) = a ∷ xs
  set (suc i) a (x ∷ xs) = x ∷ set i a xs

  -- `list.findIndex` of a test on the item and its index, `index` being the first item's.
  abbrev pub find_index_from : ℕ → (A → ℕ → Bool) → List A → Option ℕ
  find_index_from index p [] = none
  find_index_from index p (x ∷ xs) =
      let rest = find_index_from (index + 1) p xs in if p x index then some index else rest

  abbrev pub swap_found : ℕ → ℕ → Option A → Option A → List A → List A
  swap_found i j (some a) (some b) xs = set j a (set i b xs)
  swap_found i j _ _ xs = xs

  -- `[list[i], list[j]] = [list[j], list[i]]` in range.
  abbrev pub swap_at : ℕ → ℕ → List A → List A
  swap_at i j xs = swap_found i j (get_elem? xs i) (get_elem? xs j) xs

-- `currentIndex >= length - 1`
abbrev pub is_last : ℕ → ℕ → Bool
is_last current length_ = leb length_ (current + 1)

abbrev is_zero : Option ℕ → Bool
is_zero none = false
is_zero (some n) = n == 0

unfoldable pub next_slot_of : ℕ → ℕ → Option ℕ → ℕ
next_slot_of length_ current reported =
    if is_last current length_ then (if is_zero reported then 0 else length_) else current + 1

abbrev pub same_entry : MapSelection → MapSelection → Bool
same_entry entry candidate = str_eq (format_rotation candidate) (format_rotation entry)

abbrev pub holds : (MapSelection → Bool) → Option MapSelection → Bool
holds p none = false
holds p (some a) = p a

-- Neither kind of copy: the choice grows the rotation.
unfoldable pub place_new : List MapSelection → ℕ → ℕ → MapSelection → MapNextPlan
place_new existing current next_slot entry = record {
  entries = insert_at (current + 1) entry existing;
  next_slot = next_slot;
  slot = current + 1;
  placement = if is_last current (length existing) then append else insert;
}

-- From the search for an earlier copy on.
unfoldable pub place_earlier : List MapSelection → ℕ → ℕ → MapSelection → Option ℕ → MapNextPlan
unfolding place_new
place_earlier existing current next_slot entry none = place_new existing current next_slot entry
place_earlier existing current next_slot entry (some earlier) =
    if ltb next_slot (length existing)
    then record {
      entries = swap_at earlier next_slot existing;
      next_slot = next_slot;
      slot = next_slot;
      placement = swap;
    }
    else place_new existing current next_slot entry

-- From the search for a later copy on.
unfoldable pub place_later : List MapSelection → ℕ → ℕ → MapSelection → Option ℕ → MapNextPlan
unfolding place_earlier
place_later existing current next_slot entry (some later) = record {
  entries = insert_at (current + 1) entry (remove_at later existing);
  next_slot = next_slot;
  slot = current + 1;
  placement = move;
}
place_later existing current next_slot entry none = place_earlier existing current next_slot entry (
    find_index_from 0 (λ candidate index. ltb index current && same_entry entry candidate) existing)

unfoldable pub plan_map_next : List MapSelection → ℕ → Option ℕ → MapSelection → MapNextPlan
unfolding place_later next_slot_of
plan_map_next existing current reported entry =
    let next_slot = next_slot_of (length existing) current reported in
    if holds (same_entry entry) (get_elem? existing next_slot)
    then record {
      entries = existing;
      next_slot = next_slot;
      slot = next_slot;
      placement = already_next;
    }
    else place_later existing current next_slot entry (
        find_index_from 0 (λ candidate index. ltb current index && same_entry entry candidate)
          existing)
