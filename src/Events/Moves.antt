-- ===== src/Events/Moves.antt =====
-- The balancing of two teams in `planEvent` of src/server-events/event-planner.ts: who may be moved, the
-- warning before a move, the move and the respawn after it. `localeCompare` of two player IDs, which are
-- digits, is their order as texts.
use uncs_bot.Common.{
  Bool, List, Option, String, [], all, any, false, filter, find, get, get_elem?, if◌then◌else◌,
  is_some, leb, length, ltb, none, not, null, opt_str_eq, or_else, some, sort_by, str_eq, truthy, ℕ,
  ◌%◌, ◌&&◌, ◌*◌, ◌+◌, ◌-◌, ◌/◌, ◌||◌,
}
use uncs_bot.Ballots.Selection.{str_before}
use uncs_bot.Rounds.Track.{RoundTrack, by_clock}
use uncs_bot.Rounds.Gap.{larger, same_source}
use uncs_bot.Events.Record.{
  EventOptions, EventPlan, EventProgress, EventRecord, EventSnapshot, PendingRespawn, RoundStamp,
  active, broadcast, is_vote_event, kill, message, move_player, needs_review, player_warning, ready,
  respawn, set_team, tracked_stamp,
}
use uncs_bot.Events.Roster.{Roster, RosterPlayer, on_team}
use uncs_bot.Events.Rules.{halt_for, long_since, move_grace_ms, operation, stay}

-- The expected round of an action: only one dated by a clock that the game reports.
abbrev expected_round : RoundTrack → EventSnapshot → Option RoundStamp
expected_round track snapshot =
    if same_source track.round.source by_clock && is_some snapshot.clock_seconds
    then some (tracked_stamp track)
    else none

abbrev pub team_of : Option RosterPlayer → Option String
team_of none = none
team_of (some player) = player.team

-- A respawn that a confirmed move left to do.
unfoldable pub plan_respawn :
    String
    → EventRecord
    → EventProgress
    → Roster
    → RoundTrack
    → EventSnapshot
    → PendingRespawn
    → Option EventPlan
plan_respawn drawn event progress roster track snapshot pending =
    let player = find (λ p. str_eq p.steam_id pending.respawn_id) roster.players in
    if event.event_options.force_respawn
      && opt_str_eq (team_of player) (some pending.respawn_faction)
    then stay active progress (
        some
          record (operation drawn respawn
            (kill pending.respawn_id pending.respawn_faction (expected_round track snapshot))
            progress) {
              op_steam_id = some pending.respawn_id;
              op_faction = some pending.respawn_faction;
            })
    else stay active (record progress { pending_respawn = none }) none

-- `roundElapsed(track, now)` in milliseconds.
unfoldable pub round_elapsed_ms : RoundTrack → ℕ → Option ℕ
round_elapsed_ms track now =
    if track.round.exact
    then some
        (now - larger track.round.started_at (or_else track.playing_since track.round.started_at))
    else none

abbrev pub is_early : Option ℕ → ℕ → Bool
is_early none seconds = false
is_early (some elapsed) seconds = leb elapsed (seconds * 1000)

-- The two teams with their counts, the smaller one first; the first of two equal ones.
pub record Sides : Type 0 where
  pub target_team : String
  pub larger_team : String
  pub target_count : ℕ
  pub imbalance : Bool

unfoldable pub sides_of : String × String → ℕ × ℕ → Sides
sides_of (x, y) (a, b) = record {
  target_team = if leb a b then x else y;
  larger_team = if leb a b then y else x;
  target_count = if leb a b then a else b;
  imbalance = ltb (b + 1) a || ltb (a + 1) b;
}

abbrev pub was_moved : EventProgress → String → Bool
was_moved progress id = any (str_eq id) progress.moved

-- The players that may be moved, by ID.
unfoldable pub eligible_of : EventProgress → List RosterPlayer → List RosterPlayer
eligible_of progress candidates =
    sort_by (λ a b. str_before a.steam_id b.steam_id)
      (filter (λ p. not (was_moved progress p.steam_id)) candidates)

-- The one eligible player, warned first and moved after the warning's time.
unfoldable pub plan_player :
    String
    → EventRecord
    → EventProgress
    → RoundTrack
    → EventSnapshot
    → ℕ
    → Sides
    → RosterPlayer
    → Option EventPlan
plan_player drawn event progress track snapshot now sides player =
    elim (get player.steam_id progress.warned) [
      | none ↦ stay active progress (
          some record (operation drawn player_warning (message player.steam_id) progress) {
            op_steam_id = some player.steam_id;
            op_faction = some sides.target_team;
          })
      | some at ↦
          if ltb now (at + event.event_options.warning_seconds * 1000)
          then stay active progress none
          else stay active progress (
              some
                record (operation drawn move_player
                  (set_team player.steam_id sides.target_team player.team
                    (expected_round track snapshot) 50)
                  progress) {
                    op_steam_id = some player.steam_id;
                    op_faction = some sides.target_team;
                  })
    ]

abbrev pub is_ready : EventProgress → Roster → Sides → List RosterPlayer → Bool
is_ready progress roster sides excluded =
    not progress.ready_announced
    && not (null roster.players)
    && all (λ p. truthy p.team) roster.players
    && null excluded
    && not sides.imbalance

-- With nobody to move: the announcement that the teams are set, once.
unfoldable pub plan_settled :
    String → EventProgress → Roster → Sides → List RosterPlayer → Option EventPlan
plan_settled drawn progress roster sides excluded =
    if is_ready progress roster sides excluded
    then stay active progress (some (operation drawn ready broadcast progress))
    else stay active progress none

-- From the eligible players on; `floor(startedAt / 1000) % length` picks one of them.
unfoldable pub plan_eligible :
    String
    → EventRecord
    → EventProgress
    → Roster
    → RoundTrack
    → EventSnapshot
    → ℕ
    → Sides
    → List RosterPlayer
    → List RosterPlayer
    → Option EventPlan
plan_eligible drawn event progress roster track snapshot now sides excluded eligible =
    if not (null excluded) && null eligible
    then (if is_vote_event event.event_options
        then stay active progress none
        else stay needs_review progress none)
    else elim (get_elem? eligible ((progress.round.stamp_started_at / 1000) % length eligible)) [
      | none ↦ plan_settled drawn progress roster sides excluded
      | some player ↦ plan_player drawn event progress track snapshot now sides player
    ]

-- A moved player who is still on the closed team after the time to move.
abbrev pub is_stuck : EventProgress → ℕ → RosterPlayer → Bool
is_stuck progress now player = long_since (get player.steam_id progress.moved_at) move_grace_ms now

abbrev pub excluded_players : Roster → List RosterPlayer
excluded_players roster = filter (λ p. opt_str_eq p.team roster.excluded_team) roster.players

-- The players to choose from: those of the closed team, or early in the round those of the larger team.
abbrev pub candidates_of : EventOptions → Roster → RoundTrack → ℕ → Sides → List RosterPlayer
candidates_of options roster track now sides =
    let excluded = excluded_players roster in
    let early = is_early (round_elapsed_ms track now) options.balance_window_seconds in
    if not (null excluded)
    then excluded
    else if early && sides.imbalance
    then filter (on_team sides.larger_team) roster.players
    else []

abbrev pub somebody_stuck : EventOptions → EventProgress → Roster → ℕ → Bool
somebody_stuck options progress roster now =
    is_vote_event options && any (is_stuck progress now) (excluded_players roster)

abbrev pub team_full : EventOptions → Roster → RoundTrack → ℕ → Sides → Bool
team_full options roster track now sides =
    not (null (candidates_of options roster track now sides)) && leb 50 sides.target_count

-- From the two teams on.
unfoldable pub plan_teams :
    String
    → EventRecord
    → EventProgress
    → Roster
    → RoundTrack
    → EventSnapshot
    → ℕ
    → Sides
    → Option EventPlan
plan_teams drawn event progress roster track snapshot now sides =
    if somebody_stuck event.event_options progress roster now
    then halt_for event.event_state progress
    else if team_full event.event_options roster track now sides
    then (if is_vote_event event.event_options
        then halt_for event.event_state progress
        else stay needs_review progress none)
    else plan_eligible drawn event progress roster track snapshot now sides
        (excluded_players roster)
        (eligible_of progress (candidates_of event.event_options roster track now sides))
