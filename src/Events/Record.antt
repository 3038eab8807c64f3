-- ===== src/Events/Record.antt =====
-- The records of src/server-events/server-events.types.ts, the snapshot that an event is planned on and
-- the plan of src/server-events/event-planner.ts. A missing field is none, a missing table is empty,
-- and the texts of messages are left out.
use uncs_bot.Common.{Bool, List, Map, Option, String, [], false, none, some, ℕ}
use uncs_bot.Rounds.Track.{RoundId, RoundTrack}

pub record RoundStamp : Type 0 where
  pub stamp_map : String
  pub stamp_started_at : ℕ

pub record EventOptions : Type 0 where
  pub option_teams : String × String
  pub warning_seconds : ℕ
  pub balance_window_seconds : ℕ
  pub force_respawn : Bool
  pub rounds : Option ℕ
  pub auto_end : Option Bool
  pub closed_faction : Option String
  pub player_messages : Option Bool
  pub vote_source : Bool

pub data EventState : Type 0 where
  preparing waiting_round warming active stopping complete needs_review : EventState

pub record PendingRespawn : Type 0 where
  pub respawn_id : String
  pub respawn_faction : String

pub record EventProgress : Type 0 where
  pub round : RoundStamp
  pub last_observed_at : ℕ
  pub warned : Map ℕ
  pub moved : List String
  pub ready_announced : Bool
  pub round_warning_at : Option ℕ
  pub pending_respawn : Option PendingRespawn
  pub round_id : Option RoundId
  pub rounds_started : Option ℕ
  pub tracker : Option RoundTrack
  pub teams : Option (String × String)
  pub moved_at : Map ℕ
  pub roster_issue_since : Option ℕ
  pub lock_disabled_at : Option ℕ
  pub lock_issue_since : Option ℕ
  pub disable_attempts : Option ℕ
  pub restore_attempts : Option (ℕ × ℕ)
  pub event_failures : Option ℕ
  pub event_waiting_since : Option ℕ
  pub ended_at : Option ℕ

pub data OperationKind : Type 0 where
  disable_lock restore_lock round_warning player_warning move_player respawn ready armed end_event :
      OperationKind

-- The action sent to the game, without its identity and reason.
pub data EventAction : Type 0 where
  broadcast : EventAction
  message : String → EventAction
  kill : String → String → Option RoundStamp → EventAction
  set_team : String → String → Option String → Option RoundStamp → ℕ → EventAction
  save_lock : String → Bool → EventAction

pub record EventOperation : Type 0 where
  pub op_id : String
  pub op_kind : OperationKind
  pub op_action : EventAction
  pub op_round : Option RoundStamp
  pub op_round_id : Option RoundId
  pub op_recipients : List String
  pub op_steam_id : Option String
  pub op_faction : Option String

pub record EventRecord : Type 0 where
  pub event_options : EventOptions
  pub event_state : EventState
  pub event_progress : EventProgress

pub record Faction : Type 0 where
  pub faction_name : String
  pub color_hex : Option String

pub record SnapshotPlayer : Type 0 where
  pub player_id : String
  pub player_faction : Option String

pub record EventSnapshot : Type 0 where
  pub observed_at : Option ℕ
  pub factions : List Faction
  pub population : ℕ
  pub capacity : ℕ
  pub clock_seconds : Option ℕ
  pub snapshot_players : List SnapshotPlayer
  pub unlinked_player_count : ℕ

pub data EventStopReason : Type 0 where
  stop_rounds stop_roster stop_population : EventStopReason

pub record EventPlan : Type 0 where
  pub plan_state : EventState
  pub plan_progress : EventProgress
  pub plan_operation : Option EventOperation
  pub plan_stop : Option EventStopReason
  pub plan_halt : Bool

-- `isVoteEvent`
abbrev pub is_vote_event : EventOptions → Bool
is_vote_event options = options.vote_source

-- `trackedStamp`
abbrev pub tracked_stamp : RoundTrack → RoundStamp
tracked_stamp track = record {
  stamp_map = track.round.round_map;
  stamp_started_at = track.round.started_at;
}

-- `initialEventProgress`
abbrev pub initial_event_progress : RoundStamp → ℕ → EventProgress
initial_event_progress stamp now = record {
  round = stamp;
  last_observed_at = now;
  warned = [];
  moved = [];
  ready_announced = false;
  round_warning_at = none;
  pending_respawn = none;
  round_id = none;
  rounds_started = none;
  tracker = none;
  teams = none;
  moved_at = [];
  roster_issue_since = none;
  lock_disabled_at = none;
  lock_issue_since = none;
  disable_attempts = none;
  restore_attempts = none;
  event_failures = none;
  event_waiting_since = none;
  ended_at = none;
}

-- `trackedEventProgress`
unfoldable pub tracked_event_progress : RoundTrack → ℕ → EventProgress
tracked_event_progress track now = record (initial_event_progress (tracked_stamp track) now) {
  round_id = some track.round.id;
  rounds_started = some 0;
  tracker = some track;
}

-- `nextRoundProgress`
unfoldable pub next_round_progress : EventProgress → RoundTrack → ℕ → EventProgress
next_round_progress progress track now = record (initial_event_progress (tracked_stamp track) now) {
  round_id = progress.round_id;
  rounds_started = progress.rounds_started;
  tracker = some track;
  lock_disabled_at = progress.lock_disabled_at;
  disable_attempts = progress.disable_attempts;
  event_failures = progress.event_failures;
}
