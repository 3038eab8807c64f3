-- ===== src/PatronLink/CounterCalls.antt =====
-- Single calls of `Counter.take`, src/patron-link/patron-link.state.ts, and the times they keep.
use mathlib.Core.Bool.{and-eq-true_iff}
use uncs_bot.Common.{
  Bool, Bool-cases, Distinct, List, Map, Option, String, [], arith, eq_iff, false, filter, get,
  get-put, if◌then◌else◌, inl, inr, leb, length, length-append, length-filter, none, null, or_else,
  put-Distinct, refl, some, str_eq, subst, sym, true, ℕ, ◌&&◌, ◌++◌, ◌+◌, ◌∷◌, ◌≡◌, ◌≤◌,
}
use uncs_bot.PatronLink.Counter.{
  Counter, Take, expire, is_recent, max_entries, ok, take, take_found,
}

abbrev pub is_ok : Take → Bool
is_ok ok = true
is_ok _ = false

-- The times at which the calls for `key` succeed.
unfoldable pub accepted : String → Counter → List (String × ℕ) → List ℕ
accepted key c [] = []
accepted key c ((k, now) ∷ calls) =
    let rest = accepted key (take c k now).0 calls in
    if str_eq k key && is_ok (take c k now).1 then now ∷ rest else rest

-- The clock does not run backwards.
abbrev pub Ordered : ℕ → List (String × ℕ) → Type 0
Ordered now [] = Unit
Ordered now ((key, at) ∷ calls) = (now ≤ at) × Ordered at calls

abbrev pub times_of : String → Counter → List ℕ
times_of key c = or_else (get key c.times) []

pub filter-filter_later :
    (w now later : ℕ) (times : List ℕ)
    → now ≤ later
    → filter (is_recent w later) (filter (is_recent w now) times) ≡ filter (is_recent w later) times
filter-filter_later w now later [] le = refl
filter-filter_later w now later (t ∷ times) le =
    ground (arith, filter-filter_later w now later times le)

pub filter-append :
    (p : ℕ → Bool) (xs ys : List ℕ) → filter p (xs ++ ys) ≡ filter p xs ++ filter p ys
filter-append p [] ys = refl
filter-append p (x ∷ xs) ys = ground (arith, filter-append p xs ys)

get-expire_fresh :
    (w now : ℕ) (key : String) (m : Map (List ℕ))
    → get key m ≡ none
    → get key (expire w now m) ≡ none
unfolding get expire
get-expire_fresh w now key [] h = refl
get-expire_fresh w now key ((k, ts) ∷ m) h = ground (arith, get-expire_fresh w now key m)

expire-Distinct : (w now : ℕ) (m : Map (List ℕ)) → Distinct m → Distinct (expire w now m)
unfolding expire
expire-Distinct w now [] h = tt
expire-Distinct w now ((k, ts) ∷ m) h = elim (Bool-cases (null (filter (is_recent w now) ts))) [
  | inl gone ↦ rw gone (expire-Distinct w now m h.1)
  | inr kept ↦ rw kept (get-expire_fresh w now k m h.0, expire-Distinct w now m h.1)
]

eq-nil_of_null : (xs : List ℕ) → null xs ≡ true → xs ≡ []
eq-nil_of_null [] h = refl
eq-nil_of_null (x ∷ xs) h = cc

times_of-expire :
    (w now : ℕ) (key : String) (m : Map (List ℕ))
    → Distinct m
    → or_else (get key (expire w now m)) [] ≡ filter (is_recent w now) (or_else (get key m) [])
unfolding get expire
times_of-expire w now key [] h = refl
times_of-expire w now key ((k, ts) ∷ m) h = elim (Bool-cases (null (filter (is_recent w now) ts))) [
  | inl gone ↦ elim (Bool-cases (str_eq k key)) [
    | inl same ↦
        rw (gone, same)
          (subst (λ j. or_else (get j (expire w now m)) [] ≡ filter (is_recent w now) ts)
            ((eq_iff k key).0 same)
            (rw (get-expire_fresh w now k m h.0) (sym (eq-nil_of_null _ gone))))
    | inr other ↦ rw (gone, other) (times_of-expire w now key m h.1)
  ]
  | inr kept ↦ elim (Bool-cases (str_eq k key)) [
    | inl same ↦ rw kept (rw same)
    | inr other ↦ rw kept (rw other (times_of-expire w now key m h.1))
  ]
]

-- What one call does to the times of its key and of any other.
pub take-times_of :
    (c : Counter) (k key : String) (now : ℕ)
    → Distinct c.times
    → times_of key (take c k now).0 ≡ (
        if str_eq k key && is_ok (take c k now).1
        then filter (is_recent c.window_ms now) (times_of key c) ++ now ∷ []
        else filter (is_recent c.window_ms now) (times_of key c))
unfolding take
take-times_of c k key now d = ground (
  arith,
  eq_iff k key,
  times_of-expire c.window_ms now key c.times d,
  get-put k key (or_else (get k (expire c.window_ms now c.times)) [] ++ now ∷ [])
      (expire c.window_ms now c.times),
  get-put k key (now ∷ []) (expire c.window_ms now c.times),
)

take_found-Distinct :
    (c : Counter) (k : String) (now : ℕ) (m : Map (List ℕ)) (found : Option (List ℕ))
    → Distinct m
    → Distinct (take_found c k now m found).0.times
unfolding take_found
take_found-Distinct c k now m (some recent) d = elim (Bool-cases (leb c.limit (length recent))) [
  | inl full ↦ rw full d
  | inr room ↦ rw room (put-Distinct k _ m d)
]
take_found-Distinct c k now m none d = elim (Bool-cases (leb max_entries (length m))) [
  | inl full ↦ rw full d
  | inr room ↦ rw room (put-Distinct k _ m d)
]

pub take-Distinct :
    (c : Counter) (k : String) (now : ℕ) → Distinct c.times → Distinct (take c k now).0.times
unfolding take
take-Distinct c k now d =
    take_found-Distinct c k now _ (get k (expire c.window_ms now c.times))
      (expire-Distinct c.window_ms now c.times d)

pub take_keeps :
    (c : Counter) (k : String) (now : ℕ)
    → ((take c k now).0.limit ≡ c.limit) × ((take c k now).0.window_ms ≡ c.window_ms)
unfolding take
take_keeps c k now = ground arith

length-filter_concat :
    (p : ℕ → Bool) (xs : List ℕ) (n x : ℕ)
    → length (filter p xs) + 1 ≤ n
    → length (filter p xs ++ x ∷ []) ≤ n
length-filter_concat p xs n x h = omega (arith, length-append (filter p xs) (x ∷ []))

take-ok_room :
    (c : Counter) (k : String) (now : ℕ)
    → Distinct c.times
    → 1 ≤ c.limit
    → is_ok (take c k now).1 ≡ true
    → length (filter (is_recent c.window_ms now) (times_of k c)) + 1 ≤ c.limit
unfolding take
take-ok_room c k now d pos h = ground (arith, times_of-expire c.window_ms now k c.times d)

pub length-times_of-take :
    (c : Counter) (k key : String) (now : ℕ)
    → Distinct c.times
    → 1 ≤ c.limit
    → length (times_of key c) ≤ c.limit
    → length (times_of key (take c k now).0) ≤ c.limit
length-times_of-take c k key now d pos le =
    elim (Bool-cases (str_eq k key && is_ok (take c k now).1)) [
      | inl counted ↦
          rw (take-times_of c k key now d, counted)
            (length-filter_concat _ (times_of key c) c.limit now (
              subst (λ j. length (filter (is_recent c.window_ms now) (times_of j c)) + 1 ≤ c.limit)
                ((eq_iff k key).0 ((and-eq-true_iff _ _).0 counted).0)
                (take-ok_room c k now d pos ((and-eq-true_iff _ _).0 counted).1)))
      | inr other ↦
          rw (take-times_of c k key now d, other)
            (omega (arith, length-filter (is_recent c.window_ms now) (times_of key c)))
    ]
