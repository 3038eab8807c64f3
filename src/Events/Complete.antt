-- ===== src/Events/Complete.antt =====
-- `completeEventOperation` of src/server-events/event-planner.ts. The result is none for an operation
-- without the field that its kind carries, which the source asserts to be there.
use uncs_bot.Common.{
  Bool, List, Map, Option, String, [], if◌then◌else◌, none, or_else, put, some, true, ℕ, ◌&&◌, ◌++◌,
  ◌+◌, ◌∷◌,
}
use uncs_bot.Events.Record.{
  EventOperation, EventOptions, EventProgress, EventRecord, OperationKind, disable_lock, end_event,
  is_vote_event, move_player, player_warning, ready, respawn, round_warning,
}

-- `Object.fromEntries(ids.map((id) => [id, now]))`
unfoldable pub warned_at : List String → ℕ → Map ℕ → Map ℕ
warned_at [] now warned = warned
warned_at (id ∷ ids) now warned = warned_at ids now (put id now warned)

unfoldable pub count_round : EventOperation → ℕ → EventProgress → Option EventProgress
count_round op now progress = elim op.op_round [
  | none ↦ none
  | some stamp ↦ some record progress {
    round = stamp;
    round_id = elim op.op_round_id [ some id ↦ some id | none ↦ progress.round_id ];
    rounds_started = some (or_else progress.rounds_started 0 + 1);
    round_warning_at = some now;
    warned = warned_at op.op_recipients now [];
  }
]

unfoldable pub note_warning : Option String → ℕ → EventProgress → Option EventProgress
note_warning none now progress = none
note_warning (some id) now progress = some record progress { warned = put id now progress.warned }

unfoldable pub note_move :
    Option String → Option String → EventOptions → ℕ → Bool → EventProgress → Option EventProgress
note_move (some id) (some faction) options now confirmed progress = some record progress {
  moved = progress.moved ++ (id ∷ []);
  moved_at = if is_vote_event options then put id now progress.moved_at else progress.moved_at;
  pending_respawn =
      if options.force_respawn && confirmed
      then some record { respawn_id = id; respawn_faction = faction }
      else progress.pending_respawn;
}
note_move _ _ options now confirmed progress = none

-- What the kind of the operation changes.
unfoldable pub complete_kind :
    OperationKind → EventOptions → EventOperation → ℕ → Bool → EventProgress → Option EventProgress
complete_kind round_warning options op now confirmed progress = count_round op now progress
complete_kind player_warning options op now confirmed progress =
    note_warning op.op_steam_id now progress
complete_kind move_player options op now confirmed progress =
    note_move op.op_steam_id op.op_faction options now confirmed progress
complete_kind respawn options op now confirmed progress =
    some record progress { pending_respawn = none }
complete_kind ready options op now confirmed progress =
    some record progress { ready_announced = true }
complete_kind disable_lock options op now confirmed progress =
    some record progress { lock_disabled_at = some now }
complete_kind end_event options op now confirmed progress =
    some record progress { ended_at = some now }
complete_kind _ options op now confirmed progress = some progress

abbrev forget_failures : Option EventProgress → Option EventProgress
forget_failures none = none
forget_failures (some progress) = some record progress { event_failures = none }

-- `completeEventOperation`
unfoldable pub complete_operation : EventRecord → EventOperation → ℕ → Bool → Option EventProgress
complete_operation event op now confirmed =
    forget_failures
      (complete_kind op.op_kind event.event_options op now confirmed event.event_progress)
