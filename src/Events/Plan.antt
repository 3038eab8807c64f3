-- ===== src/Events/Plan.antt =====
-- `planEvent` of src/server-events/event-planner.ts, a stage to a function. A drawn ID is an argument.
-- A plan is none where the source throws.
use uncs_bot.Common.{
  Bool, Option, String, any, false, if◌then◌else◌, is_some, length, ltb, map, none, not, or_else,
  some, true, ℕ, ◌&&◌, ◌*◌, ◌+◌, ◌==◌, ◌||◌,
}
use uncs_bot.Rounds.Track.{RoundPhase, RoundTrack, waiting}
use uncs_bot.Rounds.Tracker.{is_live, round_settled, round_underway}
use uncs_bot.Events.Record.{
  EventOptions, EventPlan, EventProgress, EventRecord, EventSnapshot, PendingRespawn, broadcast,
  next_round_progress, round_warning, stop_roster, stop_rounds, tracked_stamp, warming,
}
use uncs_bot.Events.Roster.{
  Roster, RosterResult, event_roster, roster_issue, usable_roster, vote_teams,
}
use uncs_bot.Events.Rules.{
  is_finished, is_fresh_at, is_off, is_round, is_waiting_round, keep_connected, operation,
  plan_issue, plan_waiting, stay, stop_for, warn_all,
}
use uncs_bot.Events.Moves.{plan_respawn, plan_teams, sides_of}

-- A new round: its warning, once someone has scored in it.
unfoldable pub plan_new_round :
    String → EventRecord → EventProgress → Roster → RoundTrack → ℕ → Option EventPlan
plan_new_round drawn event progress roster track now =
    if not (round_settled track now) || not (round_underway track) || track.ended
    then stay event.event_state progress none
    else (let next = next_round_progress progress track now in
        stay warming next (
          some record (operation drawn round_warning broadcast next) {
            op_round = some (tracked_stamp track);
            op_round_id = some track.round.id;
            op_recipients = map (λ p. p.steam_id) roster.players;
          }))

-- From `roster.teams!` on.
unfoldable pub plan_sorted :
    String
    → EventRecord
    → EventProgress
    → Roster
    → RoundTrack
    → EventSnapshot
    → ℕ
    → Option (String × String)
    → Option (ℕ × ℕ)
    → Option PendingRespawn
    → Option EventPlan
plan_sorted drawn event progress roster track snapshot now teams counts (some pending) =
    plan_respawn drawn event progress roster track snapshot pending
plan_sorted drawn event progress roster track snapshot now (some teams) (some counts) none =
    plan_teams drawn event progress roster track snapshot now (sides_of teams counts)
plan_sorted drawn event progress roster track snapshot now _ _ none = none

unfoldable pub plan_resolved :
    String
    → EventRecord
    → EventProgress
    → RoundTrack
    → EventSnapshot
    → ℕ
    → RosterResult
    → Option EventPlan
plan_resolved drawn event progress track snapshot now (roster_issue issue) = none
plan_resolved drawn event progress track snapshot now (usable_roster roster) =
    plan_sorted drawn event progress roster track snapshot now roster.roster_teams roster.counts
      progress.pending_respawn

-- Resolving the teams of a vote-started round when sorting starts.
unfoldable pub plan_roster :
    String
    → EventRecord
    → EventProgress
    → Roster
    → RoundTrack
    → EventSnapshot
    → ℕ
    → Option (String × String)
    → Option EventPlan
plan_roster drawn event progress roster track snapshot now (some teams) =
    plan_resolved drawn event progress track snapshot now (usable_roster roster)
plan_roster drawn event progress roster track snapshot now none =
    elim (vote_teams event.event_options.closed_faction roster.faction_names roster.players) [
      | none ↦ stop_for event.event_state progress stop_roster
      | some teams ↦
          plan_resolved drawn event (record progress { teams = some teams }) track snapshot now
            (event_roster event.event_options (some teams) snapshot)
    ]

abbrev pub warn_unheard : EventOptions → Roster → ℕ → EventProgress → EventProgress
warn_unheard options roster now progress =
    if is_off options.player_messages
    then record progress { warned = warn_all roster.players now progress.warned }
    else progress

abbrev pub too_soon : Option ℕ → ℕ → ℕ → Bool
too_soon none seconds now = true
too_soon (some at) seconds now = ltb now (at + seconds * 1000)

-- The running round, after its warning.
unfoldable pub plan_current :
    String
    → EventRecord
    → EventProgress
    → Roster
    → RoundTrack
    → EventSnapshot
    → ℕ
    → Option EventPlan
plan_current drawn event before roster track snapshot now =
    let progress = warn_unheard event.event_options roster now before in
    if is_waiting_round event.event_state
    then stay event.event_state before none
    else if too_soon progress.round_warning_at event.event_options.warning_seconds now
    then stay warming progress none
    else if any (λ p. not (is_some p.team)) roster.players
    then stay event.event_state progress none
    else plan_roster drawn event progress roster track snapshot now roster.roster_teams

-- With a usable roster.
unfoldable pub plan_usable :
    String
    → EventRecord
    → EventProgress
    → RoundTrack
    → EventSnapshot
    → ℕ
    → Bool
    → Roster
    → Option EventPlan
plan_usable drawn event before track snapshot now current roster =
    let cleared = record before { roster_issue_since = none } in
    let progress = record cleared {
      last_observed_at = now;
      warned = keep_connected roster.players cleared.warned;
    } in
    if not (snapshot.population == length snapshot.snapshot_players)
    then stay event.event_state cleared none
    else if not current
    then plan_new_round drawn event progress roster track now
    else plan_current drawn event progress roster track snapshot now

abbrev pub is_phase_waiting : RoundPhase → Bool
is_phase_waiting waiting = true
is_phase_waiting _ = false

unfoldable pub plan_read :
    String
    → EventRecord
    → EventProgress
    → RoundTrack
    → EventSnapshot
    → ℕ
    → Bool
    → RosterResult
    → Option EventPlan
plan_read drawn event progress track snapshot now current (roster_issue issue) =
    plan_issue event progress now
plan_read drawn event progress track snapshot now current (usable_roster roster) =
    plan_usable drawn event progress track snapshot now current roster

-- Not waiting for players.
unfoldable pub plan_playing :
    String → EventRecord → EventProgress → RoundTrack → EventSnapshot → ℕ → Bool → Option EventPlan
plan_playing drawn event before track snapshot now current =
    let progress = record before { event_waiting_since = none } in
    if not (is_live track.phase)
    then stay event.event_state progress none
    else if is_finished event progress && (not current || track.ended)
    then stop_for event.event_state progress stop_rounds
    else plan_read drawn event progress track snapshot now current
        (event_roster event.event_options progress.teams snapshot)

-- With a fresh observation of a tracked round.
unfoldable pub plan_tracked :
    String → EventRecord → RoundTrack → EventSnapshot → ℕ → Option EventPlan
plan_tracked drawn event track snapshot now =
    let before = event.event_progress in
    let progress = record before {
      tracker = some track;
      round_id = some (or_else before.round_id track.round.id);
    } in
    let current = is_round track progress.round_id in
    if is_phase_waiting track.phase
    then plan_waiting event progress now current
    else plan_playing drawn event progress track snapshot now current

-- `planEvent`
unfoldable pub plan_event :
    String → EventRecord → EventSnapshot → ℕ → Option RoundTrack → Option EventPlan
plan_event drawn event snapshot now none = stay event.event_state event.event_progress none
plan_event drawn event snapshot now (some track) =
    if is_fresh_at snapshot.observed_at now
    then plan_tracked drawn event track snapshot now
    else stay event.event_state event.event_progress none
