-- ===== src/StaffAlerts/Restarts.antt =====
-- Posted restart alerts keep their distance.
use uncs_bot.Common.{
  Bool, Bool-cases, List, Option, String, [], arith, if◌then◌else◌, inl, inr, is_some, leb, ltb,
  none, not, null, refl, some, str_eq, ℕ, ◌&&◌, ◌+◌, ◌==◌, ◌||◌, ◌∙◌, ◌≡◌,
}
use uncs_bot.StaffAlerts.Health.{
  GoodRead, HealthAlert, HealthOptions, HealthOutage, HealthReading, HealthState, PendingRestart,
  Progress, Signal, alerted_lately, failed, game_restart, good, initial_health_state, restart_alert,
  restart_hold_ms, round_gap_ms,
}
use uncs_bot.StaffAlerts.Observe.{
  builds_differ, compare_reads, emptied, first_after_outage, is_hitch, judge_read, note_build,
  observe_failure, observe_good, observe_health, recover, restart_time, settle_pending, signals_of,
}
use uncs_bot.StaffAlerts.Monitor.{
  accept, accept-append, accept_all, final_state, history, history-accepted,
}

-- A restart alert that is posted comes at least 30 minutes after the last one posted.
abbrev pub keep_distance : Option ℕ → ℕ → HealthAlert → Option (Option ℕ)
keep_distance sent now (game_restart at before signals planned none) =
    if alerted_lately sent now then none else some (some now)
keep_distance sent now _ = some sent

-- The alerts so far keep their distance, and the state knows the last one posted.
abbrev IsSpaced : Option ℕ → ℕ → Progress → Type 0
IsSpaced sent now p = accept keep_distance sent now p.alerts ≡ some p.state.last_restart_alert_at

restart_alert-IsSpaced :
    (scheduled : ℕ → Bool) (options : HealthOptions) (s : HealthState) (alerts : List HealthAlert)
    (at before : ℕ) (signals : List Signal) (sent : Option ℕ) (now : ℕ)
    → accept keep_distance sent now alerts ≡ some s.last_restart_alert_at
    → IsSpaced sent now (restart_alert scheduled options s alerts at before signals now)
unfolding restart_alert
restart_alert-IsSpaced scheduled options s alerts at before signals sent now h =
    accept-append keep_distance sent s.last_restart_alert_at now alerts _ h
    ∙ elim (Bool-cases (scheduled at && ltb before options.restart_players)) [
      | inl only ↦ rw only refl
      | inr posts ↦ elim (Bool-cases (alerted_lately s.last_restart_alert_at now)) [
        | inl held ↦ rw (posts, held) refl
        | inr free ↦ rw (posts, free) (rw free refl)
      ]
    ]

compare_reads-IsSpaced :
    (scheduled : ℕ → Bool) (options : HealthOptions) (s : HealthState) (last current : GoodRead)
    (changed : Bool) (now : ℕ)
    → IsSpaced s.last_restart_alert_at now
        (compare_reads scheduled options s last current changed now)
unfolding compare_reads
compare_reads-IsSpaced scheduled options s last current changed now =
    elim (Bool-cases
      (not (is_hitch s.outage last now) || builds_differ last.read_build current.read_build)) [
        | inl e ↦ elim (Bool-cases (null (signals_of last current changed))) [
          | inl n ↦ rw (e, n, compare_reads) refl
          | inr n ↦
              rw (e, n, compare_reads)
                (restart_alert-IsSpaced scheduled options s [] (restart_time s.outage last)
                  last.players (signals_of last current changed) s.last_restart_alert_at now refl)
        ]
        | inr e ↦ elim (Bool-cases (emptied last current)) [
          | inl n ↦ rw (e, n, compare_reads) refl
          | inr n ↦ rw (e, n, compare_reads) refl
        ]
      ]

judge_read-IsSpaced :
    (scheduled : ℕ → Bool) (options : HealthOptions) (s : HealthState) (last : Option GoodRead)
    (current : GoodRead) (changed : Bool) (now : ℕ)
    → IsSpaced s.last_restart_alert_at now (judge_read scheduled options s last current changed now)
unfolding judge_read
judge_read-IsSpaced scheduled options s none current changed now = refl
judge_read-IsSpaced scheduled options s (some last) current changed now =
    let first =
      first_after_outage scheduled options s.outage
      || (not (is_some s.outage) && ltb (last.read_at + round_gap_ms) now) in
    let crashed =
      not (is_some s.outage) && (leb 10 last.players && (current.players == 0 && changed)) in
    elim (Bool-cases first) [
      | inl e ↦
          rw (e, judge_read) (compare_reads-IsSpaced scheduled options s last current changed now)
      | inr e ↦ elim (Bool-cases crashed) [
        | inl c ↦ rw (e, c, judge_read) refl
        | inr c ↦ rw (e, c, judge_read) refl
      ]
    ]

settle_pending-IsSpaced :
    (scheduled : ℕ → Bool) (options : HealthOptions) (sent : Option ℕ) (p : Progress)
    (waiting : Option PendingRestart) (players now : ℕ)
    → IsSpaced sent now p
    → IsSpaced sent now (settle_pending scheduled options p waiting players now)
unfolding settle_pending
settle_pending-IsSpaced scheduled options sent p none players now h = h
settle_pending-IsSpaced scheduled options sent p (some waiting) players now h =
    elim (Bool-cases (p.restart_like || ltb 1 players)) [
      | inl e ↦ rw (e, settle_pending) h
      | inr e ↦ elim (Bool-cases (ltb (waiting.pending_at + restart_hold_ms) now)) [
        | inl late ↦
            let cleared : HealthState = record p.state { pending = none } in
            rw (e, late, settle_pending)
              (restart_alert-IsSpaced scheduled options cleared p.alerts waiting.pending_at
                waiting.players_before waiting.signals sent now h)
        | inr early ↦ rw (e, early, settle_pending) h
      ]
    ]

recover-IsSpaced :
    (sent : Option ℕ) (p : Progress) (outage : Option HealthOutage) (now : ℕ)
    → IsSpaced sent now p
    → IsSpaced sent now (recover p outage now)
unfolding recover
recover-IsSpaced sent p none now h = h
recover-IsSpaced sent p (some outage) now h = elim (Bool-cases (leb 2 (outage.successes + 1))) [
  | inl e ↦ elim (Bool-cases outage.down_sent) [
    | inl down ↦
        rw (e, down, recover)
          (accept-append keep_distance sent p.state.last_restart_alert_at now p.alerts _ h)
    | inr up ↦ rw (e, up, recover) h
  ]
  | inr e ↦ rw (e, recover) h
]

note_build-IsSpaced :
    (sent : Option ℕ) (p : Progress) (before build : Option String) (now : ℕ)
    → IsSpaced sent now p
    → IsSpaced sent now (note_build p before build now)
unfolding note_build
note_build-IsSpaced sent p before none now h = h
note_build-IsSpaced sent p none (some build) now h = h
note_build-IsSpaced sent p (some known) (some build) now h =
    elim (Bool-cases (str_eq known build)) [
      | inl same ↦ rw (same, note_build) h
      | inr new ↦
          rw (new, note_build)
            (accept-append keep_distance sent p.state.last_restart_alert_at now p.alerts _ h)
    ]

observe_health-IsSpaced :
    (scheduled : ℕ → Bool) (options : HealthOptions) (s : HealthState) (reading : HealthReading)
    (now : ℕ)
    → IsSpaced s.last_restart_alert_at now (observe_health scheduled options s reading now)
unfolding observe_health observe_good observe_failure
observe_health-IsSpaced scheduled options s (failed kind) now = ground (arith)
observe_health-IsSpaced scheduled options s (good name players seconds build changed) now =
    let current : GoodRead = record {
      read_at = now;
      map_name = name;
      players = players;
      match_seconds = seconds;
      read_build = build;
    } in
    let judged = judge_read scheduled options s s.last_good current changed now in
    let settled = settle_pending scheduled options judged judged.state.pending players now in
    let recovered = recover settled settled.state.outage now in
    note_build-IsSpaced s.last_restart_alert_at recovered recovered.state.build build now (
      recover-IsSpaced s.last_restart_alert_at settled settled.state.outage now (
        settle_pending-IsSpaced scheduled options s.last_restart_alert_at judged
          judged.state.pending players now
          (judge_read-IsSpaced scheduled options s s.last_good current changed now)))

-- Over any sequence of reads from the start, a restart alert that is posted comes at least 30 minutes
-- after the last one posted; those only recorded are not counted.
pub history-keep_distance :
    (scheduled : ℕ → Bool) (options : HealthOptions) (reads : List (ℕ × HealthReading))
    → accept_all keep_distance none (history scheduled options initial_health_state reads)
      ≡ some (final_state scheduled options initial_health_state reads).last_restart_alert_at
unfolding initial_health_state
history-keep_distance scheduled options reads =
    history-accepted scheduled options keep_distance (λ s. s.last_restart_alert_at)
      (observe_health-IsSpaced scheduled options) reads initial_health_state
