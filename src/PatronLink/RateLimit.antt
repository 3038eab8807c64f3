-- ===== src/PatronLink/RateLimit.antt =====
-- At most `limit` calls of `Counter.take` of src/patron-link/patron-link.state.ts succeed for one key
-- within any window.
use mathlib.Core.List.{append_assoc, append-nil}
use uncs_bot.Common.{
  All, Bool-cases, Distinct, List, String, [], ap, arith, filter, get, if◌then◌else◌, inl, inr,
  length, length-filter, refl, str_eq, sym, ℕ, ◌&&◌, ◌++◌, ◌∙◌, ◌∷◌, ◌≡◌, ◌≤◌,
}
use uncs_bot.PatronLink.Counter.{Counter, is_recent, take}
use uncs_bot.PatronLink.CounterCalls.{
  Ordered, accepted, filter-append, filter-filter_later, is_ok, length-times_of-take, take-Distinct,
  take-times_of, take_keeps, times_of,
}

-- Between calls: the counter holds, of the times `seen` so far, all that any later window can see.
record IsFaithful (key : String) (c : Counter) (now : ℕ) (seen : List ℕ) : Type 0 where
  distinct : Distinct c.times
  positive : 1 ≤ c.limit
  bounded : length (times_of key c) ≤ c.limit
  agrees :
      (u : ℕ)
      → now ≤ u
      → filter (is_recent c.window_ms u) seen ≡ filter (is_recent c.window_ms u) (times_of key c)

abbrev seen_after : String → Counter → String → ℕ → List ℕ → List ℕ
seen_after key c k now seen =
    if str_eq k key && is_ok (take c k now).1 then seen ++ now ∷ [] else seen

take-agrees :
    (key k : String) (c : Counter) (before now u : ℕ) (seen : List ℕ)
    → before ≤ now
    → now ≤ u
    → IsFaithful key c before seen
    → filter (is_recent c.window_ms u) (seen_after key c k now seen)
      ≡ filter (is_recent c.window_ms u) (times_of key (take c k now).0)
take-agrees key k c before now u seen le le' i =
    let late = is_recent c.window_ms u in
    let kept = filter (is_recent c.window_ms now) (times_of key c) in
    elim (Bool-cases (str_eq k key && is_ok (take c k now).1)) [
      | inl counted ↦
          rw (take-times_of c k key now i.distinct, counted)
            (filter-append late seen (now ∷ [])
              ∙ ap (λ xs. xs ++ filter late (now ∷ []))
                  (i.agrees u (omega arith)
                    ∙ sym (filter-filter_later c.window_ms now u (times_of key c) le'))
              ∙ sym (filter-append late kept (now ∷ [])))
      | inr other ↦
          rw (take-times_of c k key now i.distinct, other)
            (i.agrees u (omega arith)
              ∙ sym (filter-filter_later c.window_ms now u (times_of key c) le'))
    ]

take-IsFaithful :
    (key k : String) (c : Counter) (before now : ℕ) (seen : List ℕ)
    → before ≤ now
    → IsFaithful key c before seen
    → IsFaithful key (take c k now).0 now (seen_after key c k now seen)
take-IsFaithful key k c before now seen le i =
    let (same_limit, same_window) = take_keeps c k now in
    record {
      distinct = take-Distinct c k now i.distinct;
      positive = omega (arith, i.positive, same_limit);
      bounded =
          omega
            (arith, same_limit, length-times_of-take c k key now i.distinct i.positive i.bounded);
      agrees = λ u le'. rw same_window (take-agrees key k c before now u seen le le' i);
    }

accepted_limit :
    (key : String) (calls : List (String × ℕ)) (c : Counter) (now last : ℕ) (seen : List ℕ)
    → Ordered now calls
    → All (λ call. call.1 ≤ last) calls
    → now ≤ last
    → IsFaithful key c now seen
    → length (filter (is_recent c.window_ms last) (seen ++ accepted key c calls)) ≤ c.limit
unfolding accepted
accepted_limit key [] c now last seen o b le i =
    rw (append-nil, i.agrees last le)
      (omega (arith, i.bounded, length-filter (is_recent c.window_ms last) (times_of key c)))
accepted_limit key ((k, at) ∷ calls) c now last seen o b le i =
    let rest =
      accepted_limit key calls (take c k at).0 at last (seen_after key c k at seen) o.1 b.1 b.0
        (take-IsFaithful key k c now at seen o.0 i) in
    let (same_limit, same_window) = take_keeps c k at in
    elim (Bool-cases (str_eq k key && is_ok (take c k at).1)) [
      | inl counted ↦ rw counted (rw (counted, same_limit, same_window, append_assoc) at rest)
      | inr other ↦ rw other (rw (other, same_limit, same_window) at rest)
    ]

abbrev pub new_counter : ℕ → ℕ → Counter
new_counter limit window = record { limit = limit; window_ms = window; times = [] }

-- A new counter with a positive limit, called for any keys at times that do not run backwards, lets
-- at most `limit` calls for a key succeed within the window that ends at `last`, for every `last`
-- that is no earlier than the calls.
pub take_limited :
    (limit window last : ℕ) (key : String) (calls : List (String × ℕ))
    → 1 ≤ limit
    → Ordered 0 calls
    → All (λ call. call.1 ≤ last) calls
    → length (filter (is_recent window last) (accepted key (new_counter limit window) calls))
      ≤ limit
take_limited limit window last key calls pos o b =
    accepted_limit key calls (new_counter limit window) 0 last [] o b (omega arith) (record {
      distinct = tt;
      positive = pos;
      bounded = unfold get in omega arith;
      agrees = λ u le. unfold get in refl;
    })
