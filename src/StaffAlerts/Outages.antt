-- ===== src/StaffAlerts/Outages.antt =====
-- `game-down` and `game-back` take turns.
use uncs_bot.Common.{
  Bool, Bool-cases, List, Option, String, [], arith, false, if◌then◌else◌, inl, inr, is_some, leb,
  ltb, none, not, null, refl, some, str_eq, subst, true, ℕ, ◌&&◌, ◌*◌, ◌+◌, ◌==◌, ◌||◌, ◌∙◌, ◌≡◌,
}
use uncs_bot.StaffAlerts.Health.{
  GoodRead, HealthAlert, HealthOptions, HealthOutage, HealthReading, HealthState, PendingRestart,
  Progress, RconErrorKind, Signal, failed, game_back, game_down, good, initial_health_state,
  restart_alert, restart_hold_ms, round_gap_ms,
}
use uncs_bot.StaffAlerts.Observe.{
  builds_differ, compare_reads, emptied, first_after_outage, is_hitch, judge_read, note_build,
  observe_failure, observe_good, observe_health, recover, restart_time, settle_pending, signals_of,
}
use uncs_bot.StaffAlerts.Monitor.{
  accept, accept-append, accept_all, final_state, history, history-accepted,
}

-- Whether staff were told that the game is down.
abbrev pub told_down : Option HealthOutage → Bool
told_down none = false
told_down (some outage) = outage.down_sent

abbrev pub is_told : HealthState → Bool
is_told s = told_down s.outage

module _ (options : HealthOptions) where
  -- `game-down` comes only while staff think the game is up, after two failures that span the
  -- configured minutes, and `game-back` only after it.
  abbrev pub take_turns : Bool → ℕ → HealthAlert → Option Bool
  take_turns told now (game_down since failures kind) =
      if told || not (leb 2 failures && leb (since + options.down_minutes * 60000) now)
      then none
      else some true
  take_turns told now (game_back since back) = if told then some false else none
  take_turns told now _ = some told

  observe_failure-take_turns :
      (s : HealthState) (kind : RconErrorKind) (now : ℕ)
      → accept take_turns (is_told s) now (observe_failure options s kind now).alerts
        ≡ some (is_told (observe_failure options s kind now).state)
  unfolding observe_failure
  observe_failure-take_turns s kind now = ground (arith)

  -- The outage is as it was, and no alert is about it.
  abbrev pub IsQuiet : HealthState → Progress → Type 0
  IsQuiet s p =
      (p.state.outage ≡ s.outage)
      × ((told : Bool) (now : ℕ) → accept take_turns told now p.alerts ≡ some told)

  restart_alert-IsQuiet :
      (scheduled : ℕ → Bool) (s : HealthState) (alerts : List HealthAlert) (at before : ℕ)
      (signals : List Signal) (now : ℕ)
      → ((told : Bool) (t : ℕ) → accept take_turns told t alerts ≡ some told)
      → IsQuiet s (restart_alert scheduled options s alerts at before signals now)
  unfolding restart_alert
  restart_alert-IsQuiet scheduled s alerts at before signals now h =
      (refl, λ told t. accept-append take_turns told told t alerts _ (h told t))

  compare_reads-IsQuiet :
      (scheduled : ℕ → Bool) (s : HealthState) (last current : GoodRead) (changed : Bool) (now : ℕ)
      → IsQuiet s (compare_reads scheduled options s last current changed now)
  unfolding compare_reads
  compare_reads-IsQuiet scheduled s last current changed now =
      let r =
        restart_alert-IsQuiet scheduled s [] (restart_time s.outage last) last.players
          (signals_of last current changed) now (λ told t. refl) in
      elim (Bool-cases
        (not (is_hitch s.outage last now) || builds_differ last.read_build current.read_build)) [
          | inl e ↦ elim (Bool-cases (null (signals_of last current changed))) [
            | inl n ↦ rw (e, n, compare_reads) (refl, λ told t. refl)
            | inr n ↦ rw (e, n, compare_reads) r
          ]
          | inr e ↦ elim (Bool-cases (emptied last current)) [
            | inl n ↦ rw (e, n, compare_reads) (refl, λ told t. refl)
            | inr n ↦ rw (e, n, compare_reads) (refl, λ told t. refl)
          ]
        ]

  pub judge_read-IsQuiet :
      (scheduled : ℕ → Bool) (s : HealthState) (last : Option GoodRead) (current : GoodRead)
      (changed : Bool) (now : ℕ)
      → IsQuiet s (judge_read scheduled options s last current changed now)
  unfolding judge_read
  judge_read-IsQuiet scheduled s none current changed now = (refl, λ told t. refl)
  judge_read-IsQuiet scheduled s (some last) current changed now =
      let first =
        first_after_outage scheduled options s.outage
        || (not (is_some s.outage) && ltb (last.read_at + round_gap_ms) now) in
      let crashed =
        not (is_some s.outage) && (leb 10 last.players && (current.players == 0 && changed)) in
      elim (Bool-cases first) [
        | inl e ↦ rw (e, judge_read) (compare_reads-IsQuiet scheduled s last current changed now)
        | inr e ↦ elim (Bool-cases crashed) [
          | inl c ↦ rw (e, c, judge_read) (refl, λ told t. refl)
          | inr c ↦ rw (e, c, judge_read) (refl, λ told t. refl)
        ]
      ]

  pub settle_pending-IsQuiet :
      (scheduled : ℕ → Bool) (s : HealthState) (p : Progress) (waiting : Option PendingRestart)
      (players now : ℕ)
      → IsQuiet s p
      → IsQuiet s (settle_pending scheduled options p waiting players now)
  unfolding settle_pending
  settle_pending-IsQuiet scheduled s p none players now quiet = quiet
  settle_pending-IsQuiet scheduled s p (some waiting) players now (same, quiet) =
      elim (Bool-cases (p.restart_like || ltb 1 players)) [
        | inl e ↦ rw (e, settle_pending) (same, quiet)
        | inr e ↦ elim (Bool-cases (ltb (waiting.pending_at + restart_hold_ms) now)) [
          | inl late ↦
              let cleared : HealthState = record p.state { pending = none } in
              let r =
                restart_alert-IsQuiet scheduled cleared p.alerts waiting.pending_at
                  waiting.players_before waiting.signals now quiet in
              rw (e, late, settle_pending) (r.0 ∙ same, r.1)
          | inr early ↦ rw (e, early, settle_pending) (same, quiet)
        ]
      ]

  recover-take_turns :
      (p : Progress) (outage : Option HealthOutage) (now : ℕ)
      → p.state.outage ≡ outage
      → ((told : Bool) (t : ℕ) → accept take_turns told t p.alerts ≡ some told)
      → accept take_turns (told_down outage) now (recover p outage now).alerts
        ≡ some (is_told (recover p outage now).state)
  unfolding recover
  recover-take_turns p none now same quiet = rw same (quiet false now)
  recover-take_turns p (some outage) now same quiet =
      elim (Bool-cases (leb 2 (outage.successes + 1))) [
        | inl e ↦ elim (Bool-cases outage.down_sent) [
          | inl down ↦
              rw (e, down, recover)
                (accept-append take_turns true true now p.alerts _ (quiet true now))
          | inr up ↦ rw (e, up, recover) (quiet false now)
        ]
        | inr e ↦ rw (e, recover) (quiet outage.down_sent now)
      ]

  note_build-take_turns :
      (told : Bool) (p : Progress) (before build : Option String) (now : ℕ)
      → accept take_turns told now p.alerts ≡ some (is_told p.state)
      → accept take_turns told now (note_build p before build now).alerts
        ≡ some (is_told (note_build p before build now).state)
  unfolding note_build
  note_build-take_turns told p before none now h = h
  note_build-take_turns told p none (some build) now h = h
  note_build-take_turns told p (some known) (some build) now h =
      elim (Bool-cases (str_eq known build)) [
        | inl same ↦ rw (same, note_build) h
        | inr new ↦
            rw (new, note_build) (accept-append take_turns told (is_told p.state) now p.alerts _ h)
      ]

  observe_health-take_turns :
      (scheduled : ℕ → Bool) (s : HealthState) (reading : HealthReading) (now : ℕ)
      → accept take_turns (is_told s) now (observe_health scheduled options s reading now).alerts
        ≡ some (is_told (observe_health scheduled options s reading now).state)
  unfolding observe_health observe_good
  observe_health-take_turns scheduled s (failed kind) now = observe_failure-take_turns s kind now
  observe_health-take_turns scheduled s (good name players seconds build changed) now =
      let current : GoodRead = record {
        read_at = now;
        map_name = name;
        players = players;
        match_seconds = seconds;
        read_build = build;
      } in
      let judged = judge_read scheduled options s s.last_good current changed now in
      let settled = settle_pending scheduled options judged judged.state.pending players now in
      let (same, quiet) =
        settle_pending-IsQuiet scheduled s judged judged.state.pending players now
          (judge_read-IsQuiet scheduled s s.last_good current changed now) in
      let recovered = recover settled settled.state.outage now in
      note_build-take_turns (is_told s) recovered recovered.state.build build now (
        subst
          (λ o.
            accept take_turns (told_down o) now recovered.alerts ≡ some (is_told recovered.state))
          same (recover-take_turns settled settled.state.outage now refl quiet))

  -- Over any sequence of reads from the start, `game-down` comes only while staff were not told of an
  -- outage, after two failed reads that span the configured minutes, and `game-back` only after a
  -- `game-down`: the two take turns, whatever else is sent between.
  pub history-take_turns :
      (scheduled : ℕ → Bool) (reads : List (ℕ × HealthReading))
      → accept_all take_turns false (history scheduled options initial_health_state reads)
        ≡ some (is_told (final_state scheduled options initial_health_state reads))
  unfolding initial_health_state
  history-take_turns scheduled reads =
      history-accepted scheduled options take_turns is_told (observe_health-take_turns scheduled)
        reads initial_health_state
