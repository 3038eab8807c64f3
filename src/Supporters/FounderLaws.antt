-- ===== src/Supporters/FounderLaws.antt =====
-- The window of the founder rule, and when support lapses.
use uncs_bot.Common.{
  ==_iff, Bool-cases, List, Option, String, [], any, arith, eq_iff, false, inl, inr, none, refl,
  some, true, ℕ, ◌++◌, ◌+◌, ◌-◌, ◌<◌, ◌||◌, ◌∷◌, ◌≡◌, ◌≤◌,
}
use uncs_bot.Supporters.Founder.{
  FounderContext, FounderPaymentFacts, FounderPolicy, PolicySource, SupportFacts, founder_blocker,
  is_founder_source, meets_founder_minimum, patreon_founder, paypal_current, policy_ms,
  support_active, supporter_founder,
}
use uncs_bot.Supporters.Policy.{
  Pair, Window, chosen, complete, disagree, founder_policy, half_set, policy_from, window_of,
}

-- What a payment that the founder rule does not block meets.
record Qualifies (p : FounderPaymentFacts) (policy : FounderPolicy) (c : FounderContext)
    : Type 0 where
  pub configured : policy.configured ≡ true
  pub window :
      (starts ends paid : ℕ) × (policy.starts_at ≡ some starts)
      × (policy.ends_at ≡ some ends)
      × (p.paid_at ≡ some paid)
      × (starts ≤ paid)
      × (paid < ends)
  pub from_source : is_founder_source p.source ≡ true
  pub verified : p.verification_state ≡ "verified"
  pub copy_verified : c.imported_copy_unverified ≡ false
  pub first : p.first_successful_payment_verified ≡ true
  pub no_earlier : c.earlier_payment ≡ false
  pub minimum : meets_founder_minimum p policy.amount_cents policy.currency ≡ true
  pub identity : c.has_identity ≡ true
  pub no_other : c.other_founder ≡ false
  pub not_applied : c.founder_applied_with_steam ≡ false

window_of_blocker :
    (p : FounderPaymentFacts) (policy : FounderPolicy) (c : FounderContext)
    (starts ends paid : Option ℕ)
    → policy.starts_at ≡ starts
    → policy.ends_at ≡ ends
    → p.paid_at ≡ paid
    → founder_blocker p policy c ≡ none
    → (s e t : ℕ) × (starts ≡ some s) × (ends ≡ some e) × (paid ≡ some t) × (s ≤ t) × (t < e)
unfolding founder_blocker
window_of_blocker p policy c (some s) (some e) (some t) hs he ht h =
    (s, e, t, refl, refl, refl, ground arith, ground arith)
window_of_blocker p policy c none ends paid hs he ht h = absurd (ground arith)
window_of_blocker p policy c (some s) none paid hs he ht h = absurd (ground arith)
window_of_blocker p policy c (some s) (some e) none hs he ht h = absurd (ground arith)

Qualifies-of_blocker :
    (p : FounderPaymentFacts) (policy : FounderPolicy) (c : FounderContext)
    → founder_blocker p policy c ≡ none
    → Qualifies p policy c
unfolding founder_blocker
Qualifies-of_blocker p policy c h = record {
  configured = ground arith;
  window = window_of_blocker p policy c policy.starts_at policy.ends_at p.paid_at refl refl refl h;
  from_source = ground arith;
  verified = ground (arith, eq_iff p.verification_state "verified");
  copy_verified = ground arith;
  first = ground arith;
  no_earlier = ground arith;
  minimum = ground arith;
  identity = ground arith;
  no_other = ground arith;
  not_applied = ground arith;
}

paypal_lapses :
    (at later : ℕ) (payments : List FounderPaymentFacts)
    → at ≤ later
    → any (paypal_current later) payments ≡ true
    → any (paypal_current at) payments ≡ true
unfolding paypal_current
paypal_lapses at later [] le h = h
paypal_lapses at later (p ∷ payments) le h = ground (arith, paypal_lapses at later payments)

-- Support only lapses with time: on unchanged facts, a record that supports at some time supported
-- at every earlier time.
pub support_active_mono :
    (r : SupportFacts) (at later : ℕ)
    → at ≤ later
    → support_active r later ≡ true
    → support_active r at ≡ true
unfolding support_active
support_active_mono r at later le h = ground (arith, paypal_lapses at later r.payments)

-- The window of a configured policy.
abbrev Spans : FounderPolicy → Type 0
Spans p =
    (starts : ℕ) × (p.starts_at ≡ some starts)
    × (p.ends_at ≡ some (starts + policy_ms))
    × (p.hold_hours ≤ 720)

window_of-Spans :
    (hold : Option ℕ) (source : PolicySource) (start end : Option ℕ)
    → (window_of hold source start end).configured ≡ true
    → Spans (window_of hold source start end)
window_of-Spans none source (some s) (some e) h =
    (s, ground arith, ground (arith, ==_iff (e - s) policy_ms), ground arith)
window_of-Spans (some n) source (some s) (some e) h =
    (s, ground arith, ground (arith, ==_iff (e - s) policy_ms), ground arith)
window_of-Spans hold source none end h = absurd (cc)
window_of-Spans hold source (some s) none h = absurd (cc)

chosen-Spans :
    (hold : Option ℕ) (windows : List Window)
    → (chosen hold windows).configured ≡ true
    → Spans (chosen hold windows)
chosen-Spans hold [] h = absurd (cc)
chosen-Spans hold (w ∷ ws) h = window_of-Spans hold w.source w.start w.end h

policy_from-Spans :
    (parse : String → Option ℕ) (hold : Option ℕ) (own other : Pair)
    → (policy_from parse hold own other).configured ≡ true
    → Spans (policy_from parse hold own other)
policy_from-Spans parse hold own other h = elim (Bool-cases (half_set own || half_set other)) [
  | inl half ↦ absurd (ground arith)
  | inr whole ↦ elim (Bool-cases (disagree (complete parse own ++ complete parse other))) [
    | inl two ↦ absurd (ground arith)
    | inr one ↦
        let same : policy_from parse hold own other
            ≡ chosen hold (complete parse own ++ complete parse other) =
          ground arith in
        rw same (chosen-Spans hold (complete parse own ++ complete parse other) (rw same at h))
  ]
]

founder_policy-Spans :
    (parse : String → Option ℕ) (hold : Option ℕ) (a b c d : Option String)
    → (founder_policy parse hold a b c d).configured ≡ true
    → Spans (founder_policy parse hold a b c d)
unfolding founder_policy
founder_policy-Spans parse hold a b c d h =
    policy_from-Spans parse hold (record { source = supporter_founder; start = a; end = b })
      (record { source = patreon_founder; start = c; end = d }) h

-- A payment that qualifies under the environment's policy was paid in a window of exactly fifteen
-- days, end excluded; whatever the environment holds, the refund wait is at most 720 hours.
pub founder_policy_window :
    (parse : String → Option ℕ) (hold : Option ℕ) (a b c d : Option String)
    (p : FounderPaymentFacts) (context : FounderContext)
    → founder_blocker p (founder_policy parse hold a b c d) context ≡ none
    → (starts paid : ℕ) × (p.paid_at ≡ some paid)
      × (starts ≤ paid)
      × (paid < starts + policy_ms)
      × ((founder_policy parse hold a b c d).starts_at ≡ some starts)
      × ((founder_policy parse hold a b c d).hold_hours ≤ 720)
founder_policy_window parse hold a b c d p context h =
    let q = Qualifies-of_blocker p (founder_policy parse hold a b c d) context h in
    let (s, e, t, hs, he, ht, after, before) = q.window in
    let (s', starts, ends, held) = founder_policy-Spans parse hold a b c d q.configured in
    (s', t, ht, ground arith, ground arith, starts, held)
