-- ===== src/StaffAlerts/Health.antt =====
-- The state of src/staff-alerts/health-state.ts and its `restartAlert`. Times are whole milliseconds and
-- match clocks whole seconds; a build label is the one that `cleanBuild` gives; the texts of an alert
-- are left out.
use uncs_bot.Common.{
  Bool, List, Option, String, [], false, if◌then◌else◌, ltb, none, not, some, true, ℕ, ◌&&◌, ◌++◌,
  ◌+◌, ◌∷◌,
}

pub data RconErrorKind : Type 0 where
  unreachable rejected unreadable paused other_error : RconErrorKind

pub data HealthReading : Type 0 where
  good : String → ℕ → Option ℕ → Option String → Bool → HealthReading
  failed : RconErrorKind → HealthReading

pub record GoodRead : Type 0 where
  pub read_at : ℕ
  pub map_name : String
  pub players : ℕ
  pub match_seconds : Option ℕ
  pub read_build : Option String

pub record HealthOutage : Type 0 where
  pub since : ℕ
  pub failures : ℕ
  pub error_kind : RconErrorKind
  pub down_sent : Bool
  pub successes : ℕ
  pub first_success_at : Option ℕ

pub data Signal : Type 0 where
  map_changed clock_reset new_round players_left build_differs : Signal

pub record PendingRestart : Type 0 where
  pub pending_at : ℕ
  pub players_before : ℕ
  pub signals : List Signal

pub data Watch : Type 0 where
  watch_restart watch_back : ℕ → Watch

pub record HealthState : Type 0 where
  pub last_good : Option GoodRead
  pub outage : Option HealthOutage
  pub pending : Option PendingRestart
  pub build : Option String
  pub last_restart_at : Option ℕ
  pub last_restart_alert_at : Option ℕ
  pub watch : Option Watch

pub data Suppressed : Type 0 where
  recorded_only restart_limit : Suppressed

pub data HealthAlert : Type 0 where
  game_down : ℕ → ℕ → RconErrorKind → HealthAlert
  game_back : ℕ → ℕ → HealthAlert
  game_restart : ℕ → ℕ → List Signal → Bool → Option Suppressed → HealthAlert
  game_build : String → String → Bool → HealthAlert

pub record HealthOptions : Type 0 where
  pub down_minutes : ℕ
  pub restart_players : ℕ

-- `RESTART_ALERT_MS`
abbrev pub restart_alert_ms : ℕ
restart_alert_ms = 1800000

-- `RESTART_HOLD_MS`
abbrev pub restart_hold_ms : ℕ
restart_hold_ms = 180000

-- `ROUND_GAP_MS`
abbrev pub round_gap_ms : ℕ
round_gap_ms = 60000

-- `BUILD_AFTER_RESTART_MS`
abbrev pub build_after_restart_ms : ℕ
build_after_restart_ms = 600000

unfoldable pub initial_health_state : HealthState
initial_health_state = record {
  last_good = none;
  outage = none;
  pending = none;
  build = none;
  last_restart_at = none;
  last_restart_alert_at = none;
  watch = none;
}

-- `state.lastRestartAlertAt !== null && now - state.lastRestartAlertAt < RESTART_ALERT_MS`
abbrev pub alerted_lately : Option ℕ → ℕ → Bool
alerted_lately none now = false
alerted_lately (some sent) now = ltb now (sent + restart_alert_ms)

-- What one read has changed and sent so far, and whether it looks like a restart.
pub record Progress : Type 0 where
  pub state : HealthState
  pub alerts : List HealthAlert
  pub restart_like : Bool

-- `scheduled` stands for `scheduledMatch` in the configured time zone.
module _ (scheduled : ℕ → Bool) (options : HealthOptions) where
  -- `restartAlert`, at the end of the alerts so far.
  unfoldable pub restart_alert : HealthState → List HealthAlert → ℕ → ℕ → List Signal → ℕ → Progress
  restart_alert s alerts restart_at players_before signals now =
      let record_only = scheduled restart_at && ltb players_before options.restart_players in
      let held = not record_only && alerted_lately s.last_restart_alert_at now in
      record {
        state = record s {
          last_restart_at = some restart_at;
          watch = some (watch_restart restart_at);
          last_restart_alert_at =
              if not record_only && not held then some now else s.last_restart_alert_at;
        };
        alerts =
            alerts
            ++ (game_restart restart_at players_before signals (scheduled restart_at) (
                  if record_only
                  then some recorded_only
                  else if held
                  then some restart_limit
                  else none)
                ∷ []);
        restart_like = true;
      }
