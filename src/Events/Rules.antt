-- ===== src/Events/Rules.antt =====
-- What the steps of `planEvent` of src/server-events/event-planner.ts share: the limits, the plans that
-- only keep, stop or halt, the tests, and the branches without a usable roster.
use uncs_bot.Common.{
  Bool, List, Map, Option, String, [], any, false, filter, get, if◌then◌else◌, leb, none, not,
  or_else, put, some, str_eq, true, ℕ, ◌&&◌, ◌+◌, ◌||◌, ◌∷◌,
}
use uncs_bot.Rounds.Track.{RoundId, RoundTrack}
use uncs_bot.Rounds.Gap.{same_id}
use uncs_bot.Events.Record.{
  EventAction, EventOperation, EventPlan, EventProgress, EventRecord, EventState, EventStopReason,
  OperationKind, is_vote_event, needs_review, stop_population, stop_rounds, waiting_round,
}
use uncs_bot.Events.Roster.{RosterPlayer}

abbrev pub move_grace_ms : ℕ
move_grace_ms = 120000

abbrev pub roster_grace_ms : ℕ
roster_grace_ms = 120000

abbrev pub end_wait_ms : ℕ
end_wait_ms = 60000

abbrev pub population_wait_ms : ℕ
population_wait_ms = 300000

abbrev pub fresh_ms : ℕ
fresh_ms = 15000

-- `stay(message, state, op)`
abbrev pub stay : EventState → EventProgress → Option EventOperation → Option EventPlan
stay state progress op = some record {
  plan_state = state;
  plan_progress = progress;
  plan_operation = op;
  plan_stop = none;
  plan_halt = false;
}

-- `stay(message, event.state, null, { stop })`
abbrev pub stop_for : EventState → EventProgress → EventStopReason → Option EventPlan
stop_for state progress reason = some record {
  plan_state = state;
  plan_progress = progress;
  plan_operation = none;
  plan_stop = some reason;
  plan_halt = false;
}

-- `stay(message, event.state, null, { halt })`
abbrev pub halt_for : EventState → EventProgress → Option EventPlan
halt_for state progress = some record {
  plan_state = state;
  plan_progress = progress;
  plan_operation = none;
  plan_stop = none;
  plan_halt = true;
}

-- `operation(event, kind, …)` of this round.
abbrev pub operation : String → OperationKind → EventAction → EventProgress → EventOperation
operation drawn kind action progress = record {
  op_id = drawn;
  op_kind = kind;
  op_action = action;
  op_round = some progress.round;
  op_round_id = progress.round_id;
  op_recipients = [];
  op_steam_id = none;
  op_faction = none;
}

-- An observation at most 15 seconds old, and at most 5 seconds ahead of the clock.
abbrev pub is_fresh_at : Option ℕ → ℕ → Bool
is_fresh_at none now = false
is_fresh_at (some at) now = leb now (at + fresh_ms) && leb at (now + 5000)

abbrev pub is_off : Option Bool → Bool
is_off none = false
is_off (some on) = not on

abbrev pub is_waiting_round : EventState → Bool
is_waiting_round waiting_round = true
is_waiting_round _ = false

abbrev pub is_round : RoundTrack → Option RoundId → Bool
is_round track none = false
is_round track (some id) = same_id track.round.id id

-- Whether a vote-started event has had its rounds.
abbrev pub is_finished : EventRecord → EventProgress → Bool
is_finished event progress =
    is_vote_event event.event_options
    && not (is_off event.event_options.auto_end)
    && leb (or_else event.event_options.rounds 1) (or_else progress.rounds_started 0)
    && not (is_waiting_round event.event_state)

abbrev pub long_since : Option ℕ → ℕ → ℕ → Bool
long_since none wait now = false
long_since (some since) wait now = leb (since + wait) now

-- The branch of a round that waits for players.
unfoldable pub plan_waiting : EventRecord → EventProgress → ℕ → Bool → Option EventPlan
plan_waiting event before now current =
    let progress = record before {
      event_waiting_since = some (or_else before.event_waiting_since now);
    } in
    if is_finished event progress
      && (not current || long_since progress.event_waiting_since end_wait_ms now)
    then stop_for event.event_state progress stop_rounds
    else if is_vote_event event.event_options
        && long_since progress.event_waiting_since population_wait_ms now
    then stop_for event.event_state progress stop_population
    else stay event.event_state progress none

-- The `catch` of the roster's errors.
unfoldable pub plan_issue : EventRecord → EventProgress → ℕ → Option EventPlan
plan_issue event before now =
    let progress = record before {
      roster_issue_since = some (or_else before.roster_issue_since now);
    } in
    if not (is_vote_event event.event_options)
    then stay needs_review before none
    else if long_since progress.roster_issue_since roster_grace_ms now
    then halt_for event.event_state progress
    else stay event.event_state progress none

-- `steamIds.has(id)`
abbrev pub has_player : List RosterPlayer → String → Bool
has_player players id = any (λ p. str_eq p.steam_id id) players

unfoldable pub keep_connected : List RosterPlayer → Map ℕ → Map ℕ
keep_connected players warned = filter (λ (id, at). has_player players id) warned

-- `progress.warned[id] ??= now` for each player.
unfoldable pub warn_all : List RosterPlayer → ℕ → Map ℕ → Map ℕ
warn_all [] now warned = warned
warn_all (player ∷ players) now warned =
    warn_all players now (put player.steam_id (or_else (get player.steam_id warned) now) warned)
