-- ===== src/StaffAlerts/Monitor.antt =====
-- Traces of `observeHealth` of src/staff-alerts/health-state.ts, and monitors that read the alerts of a
-- trace and say which may come next.
use uncs_bot.Common.{
  Bool, List, Option, Option-cases, [], ap, arith, inl, inr, none, or_else, refl, some, ℕ, ◌++◌,
  ◌∷◌, ◌≡◌,
}
use uncs_bot.StaffAlerts.Health.{HealthAlert, HealthOptions, HealthReading, HealthState}
use uncs_bot.StaffAlerts.Observe.{observe_health}

abbrev pub and_then : {M : Type 0} → Option M → (M → Option M) → Option M
and_then none f = none
and_then (some m) f = f m

-- A monitor: its state after an alert at a time, or none where that alert may not come.
module _ {M : Type 0} (monitor : M → ℕ → HealthAlert → Option M) where
  -- The alerts of one read.
  abbrev pub accept : M → ℕ → List HealthAlert → Option M
  accept m now [] = some m
  accept m now (alert ∷ alerts) = and_then (monitor m now alert) (λ next. accept next now alerts)

  -- The alerts of the reads of a trace.
  abbrev pub accept_all : M → List (ℕ × List HealthAlert) → Option M
  accept_all m [] = some m
  accept_all m ((now, alerts) ∷ reads) =
      and_then (accept m now alerts) (λ next. accept_all next reads)

  pub accept-append :
      (m next : M) (now : ℕ) (before after : List HealthAlert)
      → accept m now before ≡ some next
      → accept m now (before ++ after) ≡ accept next now after
  accept-append m next now [] after h = ap (λ o. accept (or_else o m) now after) h
  accept-append m next now (alert ∷ before) after h = elim (Option-cases (monitor m now alert)) [
    | inl e ↦ absurd (ground arith)
    | inr (m', e) ↦
        let rest : accept m' now before ≡ some next = ground arith in
        rw e (accept-append m' next now before after rest)
  ]

module _ (scheduled : ℕ → Bool) (options : HealthOptions) where
  -- The alerts of successive reads, each with its time.
  unfoldable pub history : HealthState → List (ℕ × HealthReading) → List (ℕ × List HealthAlert)
  unfolding observe_health
  history s [] = []
  history s ((now, reading) ∷ reads) =
      let p = observe_health scheduled options s reading now in
      (now, p.alerts) ∷ history p.state reads

  unfoldable pub final_state : HealthState → List (ℕ × HealthReading) → HealthState
  unfolding observe_health
  final_state s [] = s
  final_state s ((now, reading) ∷ reads) =
      final_state (observe_health scheduled options s reading now).state reads

  -- A monitor that accepts each read accepts every trace.
  pub history-accepted :
      {M : Type 0} (monitor : M → ℕ → HealthAlert → Option M) (view : HealthState → M)
      → ((s : HealthState) (reading : HealthReading) (now : ℕ)
          → accept monitor (view s) now (observe_health scheduled options s reading now).alerts
            ≡ some (view (observe_health scheduled options s reading now).state))
      → (reads : List (ℕ × HealthReading)) (s : HealthState)
      → accept_all monitor (view s) (history s reads) ≡ some (view (final_state s reads))
  unfolding history final_state
  history-accepted monitor view h [] s = refl
  history-accepted monitor view h ((now, reading) ∷ reads) s =
      let p = observe_health scheduled options s reading now in
      rw (h s reading now) (history-accepted monitor view h reads p.state)
