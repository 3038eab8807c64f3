-- ===== src/Common/Maps.antt =====
-- A JavaScript `Map` with string keys as the list of its entries in insertion order: `set` on a
-- key that is there keeps the entry's place, and on a new key appends.
use Prim.Native.Nat.{◌+◌, ◌≤◌}
use Prim.Native.String.{String}
use mathlib.Core.Path.{◌≡◌, refl}
use mathlib.Core.Bool.{Bool, true}
use mathlib.Core.List.{List, [], ◌∷◌}
use mathlib.Core.Option.{Option, none, some}
use native.Mathlib.Omega.{arith}
use text.Mathlib.TextEquality.{eq_iff}
use text.Mathlib.TextPositions.{eq_refl}
use uncs_bot.Common.Tests.{str_eq, if◌then◌else◌, is_some}
use uncs_bot.Common.Lists.{length}

abbrev pub Map {ℓ} : Type ℓ → Type ℓ
Map V = List (String × V)

module _ {ℓ} {V : Type ℓ} where
  unfoldable pub get : String → Map V → Option V
  get k [] = none
  get k ((j, v) ∷ m) = if str_eq j k then some v else get k m

  unfoldable pub put : String → V → Map V → Map V
  put k v [] = (k, v) ∷ []
  put k v ((j, w) ∷ m) = let rest = put k v m in if str_eq j k then (j, v) ∷ m else (j, w) ∷ rest

  unfoldable pub remove : String → Map V → Map V
  remove k [] = []
  remove k ((j, w) ∷ m) = let rest = remove k m in if str_eq j k then rest else (j, w) ∷ rest

  abbrev pub has : String → Map V → Bool
  has k m = is_some (get k m)

module _ {ℓ} {V : Type ℓ} where
  pub get-put :
      (k j : String) (v : V) (m : Map V)
      → get j (put k v m) ≡ (if str_eq k j then some v else get j m)
  unfolding get put
  get-put k j v [] = refl
  get-put k j v ((i, w) ∷ m) = ground (arith, eq_iff k j, eq_iff i k, eq_iff i j, get-put k j v m)

  pub get-put_self : (k : String) (v : V) (m : Map V) → get k (put k v m) ≡ some v
  get-put_self k v m = simp (get-put, eq_refl)

  pub get-remove :
      (k j : String) (m : Map V) → get j (remove k m) ≡ (if str_eq k j then none else get j m)
  unfolding get remove
  get-remove k j [] = ground arith
  get-remove k j ((i, w) ∷ m) = ground (arith, eq_iff k j, eq_iff i k, eq_iff i j, get-remove k j m)

  pub get-remove_self : (k : String) (m : Map V) → get k (remove k m) ≡ none
  get-remove_self k m = simp (get-remove, eq_refl)

  pub length-put : (k : String) (v : V) (m : Map V) → length (put k v m) ≤ length m + 1
  unfolding put
  length-put k v [] = omega arith
  length-put k v ((i, w) ∷ m) = ground (arith, length-put k v m)

  -- A key that is there already takes no new room.
  pub length-put-has :
      (k : String) (v : V) (m : Map V) → has k m ≡ true → length (put k v m) ≡ length m
  unfolding get put
  length-put-has k v [] h = cc
  length-put-has k v ((i, w) ∷ m) h = ground (arith, length-put-has k v m)

  pub length-remove : (k : String) (m : Map V) → length (remove k m) ≤ length m
  unfolding remove
  length-remove k [] = omega arith
  length-remove k ((i, w) ∷ m) = ground (arith, length-remove k m)
