-- ===== src/Common/Keys.antt =====
-- The keys of a `Map` are distinct, and every operation keeps them so.
use uncs_bot.Common.Tests.{Bool-cases, str_eq}
use uncs_bot.Common.Lists.{filter}
use uncs_bot.Common.Maps.{Map, get, get-put, get-remove, put, remove}
use Prim.Native.String.{String}
use mathlib.Core.Bool.{Bool}
use mathlib.Core.List.{[], ◌∷◌}
use mathlib.Core.Option.{none, some}
use mathlib.Core.Path.{refl, ◌≡◌}
use mathlib.Core.Logic.{inl, inr}
use native.Mathlib.Omega.{arith}
use text.Mathlib.TextEquality.{eq_iff}

abbrev pub Distinct {ℓ} : {V : Type ℓ} → Map V → Type ℓ
Distinct [] = Unit
Distinct ((key, v) ∷ m) = (get key m ≡ none) × Distinct m

module _ {ℓ} {V : Type ℓ} where
  pub put-Distinct : (key : String) (v : V) (m : Map V) → Distinct m → Distinct (put key v m)
  unfolding put
  put-Distinct key v [] h = (unfold get in refl, tt)
  put-Distinct key v ((k, w) ∷ m) h = elim (Bool-cases (str_eq k key)) [
    | inl same ↦ rw same h
    | inr other ↦ rw other (
      rw (get-put key k v m) (ground (arith, eq_iff k key, eq_iff key k)),
      put-Distinct key v m h.1,
    )
  ]

  pub remove-Distinct : (key : String) (m : Map V) → Distinct m → Distinct (remove key m)
  unfolding remove
  remove-Distinct key [] h = tt
  remove-Distinct key ((k, w) ∷ m) h = elim (Bool-cases (str_eq k key)) [
    | inl same ↦ rw same (remove-Distinct key m h.1)
    | inr other ↦ rw other (
      rw (get-remove key k m) (ground (arith, eq_iff k key, eq_iff key k)),
      remove-Distinct key m h.1,
    )
  ]

  pub get-filter-none :
      (p : String × V → Bool) (key : String) (m : Map V)
      → get key m ≡ none
      → get key (filter p m) ≡ none
  unfolding get
  get-filter-none p key [] h = refl
  get-filter-none p key ((k, w) ∷ m) h = ground (arith, get-filter-none p key m)

  pub filter-Distinct : (p : String × V → Bool) (m : Map V) → Distinct m → Distinct (filter p m)
  filter-Distinct p [] h = tt
  filter-Distinct p ((k, w) ∷ m) h = elim (Bool-cases (p (k, w))) [
    | inl kept ↦ rw kept (get-filter-none p k m h.0, filter-Distinct p m h.1)
    | inr gone ↦ rw gone (filter-Distinct p m h.1)
  ]

  -- What a filtered map holds, the map held.
  pub get-filter-some :
      (p : String × V → Bool) (key : String) (v : V) (m : Map V)
      → Distinct m
      → get key (filter p m) ≡ some v
      → get key m ≡ some v
  unfolding get
  get-filter-some p key v [] d h = h
  get-filter-some p key v ((k, w) ∷ m) d h =
      ground (arith, eq_iff k key, get-filter-none p k m d.0, get-filter-some p key v m d.1)
