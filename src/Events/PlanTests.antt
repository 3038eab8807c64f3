-- ===== src/Events/PlanTests.antt =====
-- A round with one player on the closed team: the theorems on its plans.
use uncs_bot.Common.{
  Option, String, [], false, get, insert_by, none, or_else, refl, some, sort_by, true, ◌&&◌, ◌∷◌,
  ◌≡◌,
}
use uncs_bot.Rounds.Track.{RoundTrack, by_clock, live}
use uncs_bot.Events.Record.{
  EventOptions, EventPlan, EventProgress, EventRecord, EventSnapshot, Faction, SnapshotPlayer,
  active, tracked_event_progress,
}
use uncs_bot.Events.Roster.{
  assigned_faction, closed_team, event_roster, event_teams, excluded_of, faction_code, place,
  roster_of, vote_teams,
}
use uncs_bot.Events.Rules.{is_fresh_at, keep_connected}
use uncs_bot.Events.Moves.{
  eligible_of, plan_eligible, plan_player, plan_teams, round_elapsed_ms, sides_of,
}
use uncs_bot.Events.MoveLaws.{may_move, moved_by}
use uncs_bot.Events.Plan.{
  plan_current, plan_event, plan_playing, plan_read, plan_resolved, plan_roster, plan_sorted,
  plan_tracked, plan_usable,
}
use uncs_bot.Events.PlanLaws.{in_round, plan_event-may_move}
use uncs_bot.Events.PlanSafe.{plan_event-PlanOk}
use uncs_bot.Events.MoveSafe.{plan_ok}

abbrev pub current_round : RoundTrack
current_round = record {
  round = record {
    id = record { id_source = by_clock; id_start = 900000 };
    round_map = "Europe";
    round_index = none;
    started_at = 900000;
    source = by_clock;
    exact = true;
  };
  phase = live;
  first_seen_at = 900000;
  playing_since = none;
  highest = 30;
  ended = false;
  last_signal_at = none;
  waiting_since = none;
  last = record {
    last_at = 1000000;
    last_map = "Europe";
    last_index = none;
    names = [];
    scores = [];
    last_leading = 30;
    last_seconds = some 100;
  };
  unseeded = false;
  stale = none;
}

abbrev vote_options : EventOptions
vote_options = record {
  option_teams = ("", "");
  warning_seconds = 30;
  balance_window_seconds = 300;
  force_respawn = true;
  rounds = some 1;
  auto_end = none;
  closed_faction = some "C";
  player_messages = none;
  vote_source = true;
}

abbrev staff_options : EventOptions
staff_options = record vote_options { vote_source = false; option_teams = ("A", "B") }

abbrev pub warned_progress : EventProgress
warned_progress = record (tracked_event_progress current_round 1000000) {
  warned = ("1", 1000000) ∷ [];
  round_warning_at = some 1000000;
  rounds_started = some 1;
  round_id = some current_round.round.id;
}

abbrev pub voted : EventRecord
voted = record {
  event_options = vote_options;
  event_state = active;
  event_progress = warned_progress;
}

abbrev faction : String → Faction
faction name = record { faction_name = name; color_hex = none }

abbrev player : String → String → SnapshotPlayer
player id name = record { player_id = id; player_faction = some name }

abbrev pub now_playing : EventSnapshot
now_playing = record {
  observed_at = some 1055000;
  factions = faction "A" ∷ faction "B" ∷ faction "C" ∷ [];
  population = 3;
  capacity = 100;
  clock_seconds = some 155;
  snapshot_players = player "1" "C" ∷ player "2" "A" ∷ player "3" "B" ∷ [];
  unlinked_player_count = 0;
}

abbrev planned : Option EventPlan
planned = plan_event "drawn" voted now_playing 1060000 (some current_round)

-- The player on the closed team is moved.
moves_one : moved_by planned ≡ some "1"
unfolding plan_event plan_tracked plan_playing plan_read plan_usable plan_current plan_roster
    plan_resolved plan_sorted plan_teams plan_eligible plan_player event_roster event_teams
    roster_of vote_teams closed_team moved_by keep_connected tracked_event_progress place
    assigned_faction faction_code excluded_of sort_by insert_by eligible_of round_elapsed_ms
    sides_of get
moves_one = refl

abbrev waiting_plan : EventPlan
waiting_plan = record {
  plan_state = active;
  plan_progress = warned_progress;
  plan_operation = none;
  plan_stop = none;
  plan_halt = false;
}

abbrev move_plan : EventPlan
move_plan = or_else planned waiting_plan

plan_event-may_move_example :
    (is_fresh_at now_playing.observed_at 1060000 && in_round voted current_round ≡ true)
    × (may_move vote_options 1060000 "1" move_plan.plan_progress ≡ true)
unfolding plan_event plan_tracked plan_playing plan_read plan_usable plan_current plan_roster
    plan_resolved plan_sorted plan_teams plan_eligible plan_player event_roster event_teams
    roster_of vote_teams closed_team moved_by keep_connected tracked_event_progress place
    assigned_faction faction_code excluded_of sort_by insert_by eligible_of round_elapsed_ms
    sides_of get
plan_event-may_move_example =
    plan_event-may_move "drawn" voted now_playing 1060000 current_round move_plan "1" refl refl

plan_event-PlanOk_example : plan_ok voted planned ≡ true
plan_event-PlanOk_example = plan_event-PlanOk "drawn" voted now_playing 1060000 (some current_round)
