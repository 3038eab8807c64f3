-- ===== src/Events/Outcome.antt =====
-- `outcome` and `unsent` of src/server-events/server-events.service.ts: what an action's result means for
-- the event. An outcome is none where completing the operation is none.
use uncs_bot.Common.{
  Bool, Option, String, false, if◌then◌else◌, is_some, leb, none, not, or_else, some, true, ℕ, ◌&&◌,
  ◌+◌, ◌||◌,
}
use uncs_bot.Events.Record.{
  EventOperation, EventProgress, EventRecord, EventState, OperationKind, active, armed, complete,
  disable_lock, end_event, is_vote_event, move_player, needs_review, player_warning, preparing,
  ready, respawn, restore_lock, round_warning, stopping, waiting_round, warming,
}
use uncs_bot.Events.Complete.{complete_operation, note_warning}
use uncs_bot.Events.Lock.{LockedEvent, retry_limit}
use uncs_bot.Events.Steps.{is_review}

-- `ActionResult["state"]`
pub data ResultState : Type 0 where
  applied accepted pending failed unknown_result : ResultState

-- `ActionResult`
pub record ActionResult : Type 0 where
  pub result_state : ResultState
  pub changed : Option Bool
  pub revision : Option String

pub record Outcome : Type 0 where
  pub outcome_state : EventState
  pub outcome_progress : EventProgress
  pub outcome_halt : Bool

abbrev pub is_applied : ResultState → Bool
is_applied applied = true
is_applied _ = false

abbrev pub is_accepted : ResultState → Bool
is_accepted accepted = true
is_accepted _ = false

abbrev pub is_pending : ResultState → Bool
is_pending pending = true
is_pending _ = false

abbrev pub is_failed : ResultState → Bool
is_failed failed = true
is_failed _ = false

abbrev pub is_yes : Option Bool → Bool
is_yes (some b) = b
is_yes none = false

abbrev pub is_no : Option Bool → Bool
is_no (some b) = not b
is_no none = false

abbrev pub plain : EventState → EventProgress → Option Outcome
plain state progress =
    some record { outcome_state = state; outcome_progress = progress; outcome_halt = false }

abbrev pub halting : EventState → EventProgress → Option Outcome
halting state progress =
    some record { outcome_state = state; outcome_progress = progress; outcome_halt = true }

-- `retry(reason, state, base)`: the third failure in a row halts the event.
unfoldable pub retry_outcome : EventProgress → EventState → EventProgress → Option Outcome
retry_outcome progress state base =
    let failures = or_else progress.event_failures 0 + 1 in
    some record {
      outcome_state = state;
      outcome_progress = record base { event_failures = some failures };
      outcome_halt = leb retry_limit failures;
    }

abbrev pub without_respawn : EventProgress → EventProgress
without_respawn progress = record progress { pending_respawn = none }

-- `accepted`
unfoldable pub is_accepted_result : OperationKind → ActionResult → Bool
is_accepted_result move_player result = is_applied result.result_state && is_yes result.changed
is_accepted_result disable_lock result =
    is_applied result.result_state || is_pending result.result_state
is_accepted_result restore_lock result =
    is_applied result.result_state || is_pending result.result_state
is_accepted_result _ result = is_applied result.result_state || is_accepted result.result_state

-- `states[op.kind] ?? "active"`
unfoldable pub accepted_state : OperationKind → EventState
accepted_state restore_lock = complete
accepted_state disable_lock = preparing
accepted_state armed = waiting_round
accepted_state round_warning = warming
accepted_state end_event = stopping
accepted_state _ = active

abbrev pub completed : EventState → Option EventProgress → Option Outcome
completed state none = none
completed state (some progress) = plain state progress

unfoldable pub unconfirmed_move : ResultState → EventRecord → EventOperation → ℕ → Option Outcome
unconfirmed_move pending event op now = completed active (complete_operation event op now false)
unconfirmed_move failed event op now =
    retry_outcome event.event_progress active event.event_progress
unconfirmed_move _ event op now = halting active event.event_progress

unfoldable pub unconfirmed_respawn : ResultState → EventProgress → Option Outcome
unconfirmed_respawn failed progress = retry_outcome progress active (without_respawn progress)
unconfirmed_respawn _ progress = halting active (without_respawn progress)

-- A vote-started event's operation whose result is not accepted.
unfoldable pub unconfirmed :
    OperationKind → ActionResult → EventRecord → EventOperation → ℕ → Option Outcome
unconfirmed disable_lock result event op now = plain preparing event.event_progress
unconfirmed move_player result event op now = unconfirmed_move result.result_state event op now
unconfirmed respawn result event op now =
    unconfirmed_respawn result.result_state event.event_progress
unconfirmed round_warning result event op now =
    retry_outcome event.event_progress event.event_state event.event_progress
unconfirmed armed result event op now = plain waiting_round event.event_progress
unconfirmed end_event result event op now =
    plain stopping (record event.event_progress { ended_at = some now })
unconfirmed ready result event op now =
    plain active (record event.event_progress { ready_announced = true })
unconfirmed player_warning result event op now =
    elim (note_warning op.op_steam_id now event.event_progress) [
      | none ↦ none
      | some progress ↦ plain active progress
    ]
unconfirmed _ result event op now = plain needs_review event.event_progress

abbrev pub is_restore : OperationKind → Bool
is_restore restore_lock = true
is_restore _ = false

abbrev pub moves_players : OperationKind → Bool
moves_players move_player = true
moves_players respawn = true
moves_players _ = false

-- A move or a respawn that changed nothing.
unfoldable pub unchanged_outcome : ActionResult → EventRecord → Option Outcome
unchanged_outcome result event =
    if is_vote_event event.event_options && is_failed result.result_state
    then retry_outcome event.event_progress active (without_respawn event.event_progress)
    else plain active (without_respawn event.event_progress)

-- `outcome`
unfoldable pub outcome : EventRecord → EventOperation → ActionResult → ℕ → Option Outcome
outcome event op result now =
    if moves_players op.op_kind && is_no result.changed
    then unchanged_outcome result event
    else if is_accepted_result op.op_kind result
    then completed (accepted_state op.op_kind) (complete_operation event op now true)
    else if is_restore op.op_kind
    then plain stopping event.event_progress
    else if not (is_vote_event event.event_options)
    then plain needs_review event.event_progress
    else unconfirmed op.op_kind result event op now

-- `unsent(event, latest)`, with `connected(latest)` as an argument.
unfoldable pub unsent : EventRecord → Option LockedEvent → Bool → EventState
unsent event none connected = needs_review
unsent event (some latest) connected =
    if is_some latest.stop_reason
    then stopping
    else if is_vote_event event.event_options
        && not (is_review latest.event.event_state)
        && connected
    then latest.event.event_state
    else needs_review
