-- ===== src/Common/Lists.antt =====
-- Lists measured and indexed by native numbers, and the array methods of the source as functions
-- of a Boolean test: `filter`, `some` (here `any`), `every` (here `all`), `find`, `findIndex`.
use Prim.Native.Nat.{ℕ, zero, suc, ◌+◌, ◌-◌, ◌≤◌, min}
use mathlib.Core.Path.{◌≡◌, refl, subst}
use mathlib.Core.Logic.{inl, inr}
use mathlib.Core.Bool.{Bool, true, false, ◌&&◌, ◌||◌}
use mathlib.Core.List.{List, [], ◌∷◌, ◌++◌}
use mathlib.Core.Option.{Option, none, some}
use native.Mathlib.Omega.{arith}
use uncs_bot.Common.Tests.{Bool-cases, if◌then◌else◌}

-- A predicate by recursion computes to tuples, which the tactics read and build.
abbrev pub All {ℓ κ} : {A : Type ℓ} → (A → Type κ) → List A → Type κ
All P [] = Unit
All P (x ∷ xs) = P x × All P xs

module _ {ℓ} {A : Type ℓ} where
  abbrev pub length : List A → ℕ
  length [] = 0
  length (x ∷ xs) = suc (length xs)

  abbrev pub get_elem? : List A → ℕ → Option A
  get_elem? [] i = none
  get_elem? (x ∷ xs) zero = some x
  get_elem? (x ∷ xs) (suc i) = get_elem? xs i

  abbrev pub take : ℕ → List A → List A
  take zero xs = []
  take (suc n) [] = []
  take (suc n) (x ∷ xs) = x ∷ take n xs

  abbrev pub drop : ℕ → List A → List A
  drop zero xs = xs
  drop (suc n) [] = []
  drop (suc n) (x ∷ xs) = drop n xs

  abbrev pub any : (A → Bool) → List A → Bool
  any p [] = false
  any p (x ∷ xs) = p x || any p xs

  abbrev pub all : (A → Bool) → List A → Bool
  all p [] = true
  all p (x ∷ xs) = p x && all p xs

  abbrev pub filter : (A → Bool) → List A → List A
  filter p [] = []
  filter p (x ∷ xs) = let rest = filter p xs in if p x then x ∷ rest else rest

  abbrev pub find : (A → Bool) → List A → Option A
  find p [] = none
  find p (x ∷ xs) = let rest = find p xs in if p x then some x else rest

  abbrev pub null : List A → Bool
  null [] = true
  null (x ∷ xs) = false

  -- `list.slice(-n)` for a positive n: the last n items.
  unfoldable pub last_items : ℕ → List A → List A
  last_items n xs = drop (length xs - n) xs

module _ {ℓ} {A : Type ℓ} where
  pub length-append : (xs ys : List A) → length (xs ++ ys) ≡ length xs + length ys
  length-append [] ys = omega arith
  length-append (x ∷ xs) ys = omega (arith, length-append xs ys)

  pub length-drop : (n : ℕ) (xs : List A) → length (drop n xs) ≡ length xs - n
  length-drop zero xs = omega arith
  length-drop (suc n) [] = omega arith
  length-drop (suc n) (x ∷ xs) = omega (arith, length-drop n xs)

  pub length-take : (n : ℕ) (xs : List A) → length (take n xs) ≡ min n (length xs)
  length-take zero xs = omega arith
  length-take (suc n) [] = omega arith
  length-take (suc n) (x ∷ xs) = omega (arith, length-take n xs)

  pub length-last_items : (n : ℕ) (xs : List A) → length (last_items n xs) ≤ n
  unfolding last_items
  length-last_items n xs = omega (arith, length-drop (length xs - n) xs)

  pub length-filter : (p : A → Bool) (xs : List A) → length (filter p xs) ≤ length xs
  length-filter p [] = omega arith
  length-filter p (x ∷ xs) = ground (arith, length-filter p xs)

  -- What the test does not hold of is gone.
  pub filter-All : (p : A → Bool) (xs : List A) → All (λ x. p x ≡ true) (filter p xs)
  filter-All p [] = tt
  filter-All p (x ∷ xs) =
      elim (Bool-cases (p x)) as (λ _. All (λ y. p y ≡ true) (filter p (x ∷ xs))) [
        | inl e ↦ rw e (e, filter-All p xs)
        | inr e ↦ rw e (filter-All p xs)
      ]

module _ {ℓ} {A : Type ℓ} where
  -- `list.sort` with the comparator `before a b` for a negative answer: stable.
  unfoldable pub insert_by : (A → A → Bool) → A → List A → List A
  insert_by before x [] = x ∷ []
  insert_by before x (y ∷ ys) =
      let rest = insert_by before x ys in if before y x then y ∷ rest else x ∷ y ∷ ys

  unfoldable pub sort_by : (A → A → Bool) → List A → List A
  sort_by before [] = []
  sort_by before (x ∷ xs) = insert_by before x (sort_by before xs)

module _ {ℓ} {A : Type ℓ} where
  pub any-insert_by :
      (before : A → A → Bool) (p : A → Bool) (x : A) (xs : List A)
      → any p (insert_by before x xs) ≡ p x || any p xs
  unfolding insert_by
  any-insert_by before p x [] = refl
  any-insert_by before p x (y ∷ ys) = ground (arith, any-insert_by before p x ys)

  pub any-sort_by :
      (before : A → A → Bool) (p : A → Bool) (xs : List A) → any p (sort_by before xs) ≡ any p xs
  unfolding sort_by
  any-sort_by before p [] = refl
  any-sort_by before p (x ∷ xs) =
      ground (arith, any-insert_by before p x (sort_by before xs), any-sort_by before p xs)

  pub any-filter : (p q : A → Bool) (xs : List A) → any p (filter q xs) ≡ any (λ x. q x && p x) xs
  any-filter p q [] = refl
  any-filter p q (x ∷ xs) = ground (arith, any-filter p q xs)

  pub find-none_of_any : (p : A → Bool) (xs : List A) → any p xs ≡ false → find p xs ≡ none
  find-none_of_any p [] h = refl
  find-none_of_any p (x ∷ xs) h = ground (arith, find-none_of_any p xs)

  pub any_of_find :
      (p : A → Bool) (xs : List A) (a : A) → find p xs ≡ some a → (any p xs ≡ true) × (p a ≡ true)
  any_of_find p [] a h = cc
  any_of_find p (x ∷ xs) a h = ground (arith, any_of_find p xs a)

  pub any_of_find-none : (p : A → Bool) (xs : List A) → find p xs ≡ none → any p xs ≡ false
  any_of_find-none p [] h = refl
  any_of_find-none p (x ∷ xs) h = ground (arith, any_of_find-none p xs)

-- A predicate of every item: weakened, of the item found, of those kept.
module _ {ℓ κ} {A : Type ℓ} (P Q : A → Type κ) where
  pub All-map : ((x : A) → P x → Q x) → (xs : List A) → All P xs → All Q xs
  All-map f [] h = tt
  All-map f (x ∷ xs) (p, h) = (f x p, All-map f xs h)

module _ {ℓ κ} {A : Type ℓ} (P : A → Type κ) where
  pub find-All :
      (p : A → Bool) (xs : List A) (a : A) → All P xs → find p xs ≡ some a → P a × (p a ≡ true)
  find-All p [] a h e = absurd (cc)
  find-All p (x ∷ xs) a (here, h) e = elim (Bool-cases (p x)) [
    | inl t ↦ let same : x ≡ a = ground arith in (subst P same here, subst (λ y. p y ≡ true) same t)
    | inr f ↦ let rest : find p xs ≡ some a = ground arith in find-All p xs a h rest
  ]

  pub take-All : (n : ℕ) (xs : List A) → All P xs → All P (take n xs)
  take-All zero xs h = tt
  take-All (suc n) [] h = tt
  take-All (suc n) (x ∷ xs) (p, h) = (p, take-All n xs h)

  pub filter-keeps : (p : A → Bool) (xs : List A) → All P xs → All P (filter p xs)
  filter-keeps p [] h = tt
  filter-keeps p (x ∷ xs) (q, h) = elim (Bool-cases (p x)) as (λ _. All P (filter p (x ∷ xs))) [
    | inl e ↦ rw e (q, filter-keeps p xs h)
    | inr e ↦ rw e (filter-keeps p xs h)
  ]

  pub append-All : (xs ys : List A) → All P xs → All P ys → All P (xs ++ ys)
  append-All [] ys h k = k
  append-All (x ∷ xs) ys (p, h) k = (p, append-All xs ys h k)

module _ {ℓ κ} {A : Type ℓ} (P : A → Type κ) where
  pub insert_by-All :
      (before : A → A → Bool) (x : A) (xs : List A) → P x → All P xs → All P (insert_by before x xs)
  unfolding insert_by
  insert_by-All before x [] p h = (p, tt)
  insert_by-All before x (y ∷ ys) p (q, h) =
      elim (Bool-cases (before y x)) as (λ _. All P (insert_by before x (y ∷ ys))) [
        | inl e ↦ rw (e, insert_by) (q, insert_by-All before x ys p h)
        | inr e ↦ rw (e, insert_by) (p, (q, h))
      ]

  pub sort_by-All : (before : A → A → Bool) (xs : List A) → All P xs → All P (sort_by before xs)
  unfolding sort_by
  sort_by-All before [] h = tt
  sort_by-All before (x ∷ xs) (p, h) =
      insert_by-All before x (sort_by before xs) p (sort_by-All before xs h)

  pub get_elem-All : (xs : List A) (i : ℕ) (a : A) → All P xs → get_elem? xs i ≡ some a → P a
  get_elem-All [] i a h e = absurd (cc)
  get_elem-All (x ∷ xs) zero a (p, h) e = let same : x ≡ a = ground arith in subst P same p
  get_elem-All (x ∷ xs) (suc i) a (p, h) e = get_elem-All xs i a h e

module _ {ℓ} {A : Type ℓ} where
  pub any_mono :
      (p q : A → Bool) (xs : List A)
      → ((x : A) → p x ≡ true → q x ≡ true)
      → any p xs ≡ true
      → any q xs ≡ true
  any_mono p q [] f h = h
  any_mono p q (x ∷ xs) f h = elim (Bool-cases (p x)) [
    | inl e ↦ let here = f x e in ground arith
    | inr e ↦
        let rest : any p xs ≡ true = ground arith in
        let there = any_mono p q xs f rest in ground arith
  ]

  pub get_elem-any :
      (p : A → Bool) (xs : List A) (i : ℕ) (x : A)
      → get_elem? xs i ≡ some x
      → p x ≡ true
      → any p xs ≡ true
  get_elem-any p [] i x h e = absurd (cc)
  get_elem-any p (y ∷ xs) zero x h e = ground arith
  get_elem-any p (y ∷ xs) (suc i) x h e = let rest = get_elem-any p xs i x h e in ground arith
