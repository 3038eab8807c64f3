-- ===== src/StaffAlerts/Observe.antt =====
-- `observeHealth` of src/staff-alerts/health-state.ts in its parts: a failed read, the comparison of a
-- good read with the last one, a pending restart, the end of an outage and a new build.
use uncs_bot.Common.{
  Bool, List, Option, String, [], false, if◌then◌else◌, is_some, leb, ltb, none, not, null, or_else,
  some, str_eq, true, ℕ, ◌&&◌, ◌*◌, ◌++◌, ◌+◌, ◌==◌, ◌||◌, ◌∷◌,
}
use uncs_bot.Ballots.Selection.{same_map}
use uncs_bot.StaffAlerts.Health.{
  GoodRead, HealthOptions, HealthOutage, HealthReading, HealthState, PendingRestart, Progress,
  RconErrorKind, Signal, build_after_restart_ms, build_differs, clock_reset, failed, game_back,
  game_build, game_down, good, map_changed, new_round, paused, players_left, restart_alert,
  restart_hold_ms, round_gap_ms, watch_back,
}

abbrev is_paused : RconErrorKind → Bool
is_paused paused = true
is_paused _ = false

-- `state.outage ?? { since: now, … }`
abbrev outage_or_new : Option HealthOutage → RconErrorKind → ℕ → HealthOutage
outage_or_new (some outage) kind now = outage
outage_or_new none kind now = record {
  since = now;
  failures = 0;
  error_kind = kind;
  down_sent = false;
  successes = 0;
  first_success_at = none;
}

abbrev counted : HealthOutage → RconErrorKind → HealthOutage
counted outage kind = record outage {
  failures = outage.failures + 1;
  error_kind = kind;
  successes = 0;
  first_success_at = none;
}

-- Whether a failed read sends `game-down`.
abbrev pub sends_down : HealthOptions → HealthOutage → ℕ → Bool
sends_down options outage now =
    not outage.down_sent
    && (leb 2 outage.failures && leb (outage.since + options.down_minutes * 60000) now)

-- The branch of a failed read.
unfoldable pub observe_failure : HealthOptions → HealthState → RconErrorKind → ℕ → Progress
observe_failure options s kind now =
    let outage = counted (outage_or_new s.outage kind now) kind in
    if is_paused kind
    then record { state = s; alerts = []; restart_like = false }
    else if sends_down options outage now
    then record {
      state = record s { outage = some (record outage { down_sent = true }) };
      alerts = game_down outage.since outage.failures kind ∷ [];
      restart_like = false;
    }
    else record { state = record s { outage = some outage }; alerts = []; restart_like = false }

-- `current.matchSeconds < last.matchSeconds - 30`, both known.
abbrev pub rolled_back : Option ℕ → Option ℕ → Bool
rolled_back (some before) (some after) = ltb (after + 30) before
rolled_back _ _ = false

-- Both builds known and different.
abbrev pub builds_differ : Option String → Option String → Bool
builds_differ (some a) (some b) = not (str_eq a b)
builds_differ _ _ = false

abbrev signal_if : Bool → Signal → List Signal → List Signal
signal_if test signal rest = if test then signal ∷ rest else rest

abbrev pub emptied : GoodRead → GoodRead → Bool
emptied last current = leb 5 last.players && leb current.players 1

unfoldable pub signals_of : GoodRead → GoodRead → Bool → List Signal
signals_of last current round_changed =
    let back = rolled_back last.match_seconds current.match_seconds in
    signal_if (not (same_map last.map_name current.map_name)) map_changed (
      signal_if back clock_reset (
        signal_if (not back && round_changed) new_round (
          signal_if (emptied last current) players_left
            (signal_if (builds_differ last.read_build current.read_build) build_differs []))))

-- One failed read inside the normal read gap, on each of its sides.
abbrev pub is_hitch : Option HealthOutage → GoodRead → ℕ → Bool
is_hitch none last now = false
is_hitch (some outage) last now =
    ltb outage.failures 2
    && (leb outage.since (last.read_at + round_gap_ms) && leb now (outage.since + round_gap_ms))

abbrev pub restart_time : Option HealthOutage → GoodRead → ℕ
restart_time none last = last.read_at
restart_time (some outage) last = outage.since

-- `state.pending ??= value`
abbrev pend : HealthState → PendingRestart → HealthState
pend s value = record s { pending = some (or_else s.pending value) }

module _ (scheduled : ℕ → Bool) (options : HealthOptions) where
  -- The first good read after a gap or an outage.
  unfoldable pub compare_reads : HealthState → GoodRead → GoodRead → Bool → ℕ → Progress
  unfolding signals_of restart_alert
  compare_reads s last current round_changed now =
      let signals = signals_of last current round_changed in
      let at = restart_time s.outage last in
      if not (is_hitch s.outage last now) || builds_differ last.read_build current.read_build
      then (if null signals
          then record { state = s; alerts = []; restart_like = false }
          else restart_alert scheduled options s [] at last.players signals now)
      else if emptied last current
      then record {
        state = pend s record { pending_at = at; players_before = last.players; signals = signals };
        alerts = [];
        restart_like = false;
      }
      else record { state = s; alerts = []; restart_like = false }

  abbrev pub first_after_outage : Option HealthOutage → Bool
  first_after_outage none = false
  first_after_outage (some outage) = outage.successes == 0

  -- The comparison with the last good read, where there is one.
  unfoldable pub judge_read : HealthState → Option GoodRead → GoodRead → Bool → ℕ → Progress
  unfolding compare_reads
  judge_read s none current round_changed now = record {
    state = s;
    alerts = [];
    restart_like = false;
  }
  judge_read s (some last) current round_changed now =
      let gap = ltb (last.read_at + round_gap_ms) now in
      if first_after_outage s.outage || (not (is_some s.outage) && gap)
      then compare_reads s last current round_changed now
      else if not (is_some s.outage)
          && (leb 10 last.players && (current.players == 0 && round_changed))
      then record {
        state = pend s record {
          pending_at = now;
          players_before = last.players;
          signals = players_left ∷ new_round ∷ [];
        };
        alerts = [];
        restart_like = false;
      }
      else record { state = s; alerts = []; restart_like = false }

  -- `if (restartLike) state.pending = null; else if (pending) …`
  unfoldable pub settle_pending : Progress → Option PendingRestart → ℕ → ℕ → Progress
  unfolding restart_alert
  settle_pending p none players now = p
  settle_pending p (some waiting) players now =
      if p.restart_like || ltb 1 players
      then record p { state = record p.state { pending = none } }
      else if ltb (waiting.pending_at + restart_hold_ms) now
      then restart_alert scheduled options (record p.state { pending = none }) p.alerts
          waiting.pending_at waiting.players_before waiting.signals now
      else p

-- A good read of an outage: two of them end it.
unfoldable pub recover : Progress → Option HealthOutage → ℕ → Progress
recover p none now = p
recover p (some outage) now =
    let back = or_else outage.first_success_at now in
    if leb 2 (outage.successes + 1)
    then (if outage.down_sent
        then record p {
          state = record p.state { outage = none; watch = some (watch_back back) };
          alerts = p.alerts ++ (game_back outage.since back ∷ []);
        }
        else record p { state = record p.state { outage = none } })
    else record p {
      state = record p.state {
        outage =
            some (record outage { successes = outage.successes + 1; first_success_at = some back });
      };
    }

abbrev pub after_restart : Progress → ℕ → Bool
after_restart p now = p.restart_like || elim p.state.last_restart_at [
  | none ↦ false
  | some at ↦ leb now (at + build_after_restart_ms)
]

unfoldable pub note_build : Progress → Option String → Option String → ℕ → Progress
note_build p before none now = p
note_build p none (some build) now = record p { state = record p.state { build = some build } }
note_build p (some known) (some build) now =
    if str_eq known build
    then record p { state = record p.state { build = some build } }
    else record p {
      state = record p.state { build = some build };
      alerts = p.alerts ++ (game_build known build (after_restart p now) ∷ []);
    }

abbrev pub remember : Progress → GoodRead → Progress
remember p current = record p { state = record p.state { last_good = some current } }

module _ (scheduled : ℕ → Bool) (options : HealthOptions) where
  unfoldable pub observe_good : HealthState → GoodRead → Bool → ℕ → Progress
  unfolding judge_read settle_pending recover note_build
  observe_good s current round_changed now =
      let judged = judge_read scheduled options s s.last_good current round_changed now in
      let settled =
        settle_pending scheduled options judged judged.state.pending current.players now in
      let recovered = recover settled settled.state.outage now in
      remember (note_build recovered recovered.state.build current.read_build now) current

  -- `observeHealth`
  unfoldable pub observe_health : HealthState → HealthReading → ℕ → Progress
  unfolding observe_failure observe_good
  observe_health s (failed kind) now = observe_failure options s kind now
  observe_health s (good name players seconds build round_changed) now =
      observe_good s
        (record {
          read_at = now;
          map_name = name;
          players = players;
          match_seconds = seconds;
          read_build = build;
        })
        round_changed now
