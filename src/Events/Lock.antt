-- ===== src/Events/Lock.antt =====
-- What src/server-events/server-events.service.ts knows of an event beside its plan, the team-lock
-- setting, and the steps of the service that read and change that setting. Messages and revisions'
-- contents are left out. The actor of a stop is its reason.
use uncs_bot.Common.{
  Bool, Option, String, [], false, if◌then◌else◌, is_some, leb, ltb, none, not, or_else, some, true,
  ℕ, ◌&&◌, ◌+◌, ◌||◌,
}
use uncs_bot.Rounds.Track.{RoundTrack}
use uncs_bot.Rounds.Gap.{is_waiting}
use uncs_bot.Events.Record.{
  EventAction, EventOperation, EventProgress, EventRecord, EventState, OperationKind, armed,
  broadcast, disable_lock, end_event, is_vote_event, restore_lock, save_lock, stopping,
}

-- `EventEndReason`
pub data EndReason : Type 0 where
  by_staff by_rounds by_halted by_roster by_population by_lock_changed by_expiry : EndReason

-- The field of the settings; its value is none where it is no Boolean.
pub record LockField : Type 0 where
  pub lock_value : Option Bool
  pub editable : Bool

pub record LockedEvent : Type 0 where
  pub event : EventRecord
  pub original_lock : Bool
  pub restore_revision : Option String
  pub stop_reason : Option EndReason

-- `Step`; an observation also says whether it sends the alert of an unreadable lock, a problem whether it
-- carries an alert.
pub data Step : Type 0 where
  op_step : EventOperation → EventProgress → Step
  observe_step : EventState → EventProgress → Bool → Step
  stop_step : EndReason → Step
  halt_step : Step
  problem_step : Option EventProgress → Bool → Step
  complete_step : Step

abbrev pub lock_alert_ms : ℕ
lock_alert_ms = 300000

abbrev pub lock_review_ms : ℕ
lock_review_ms = 1800000

abbrev pub restore_limit : ℕ
restore_limit = 5

abbrev pub restore_gap_ms : ℕ
restore_gap_ms = 60000

abbrev pub retry_limit : ℕ
retry_limit = 3

-- `operation(event, kind, input)`: tied to no round.
abbrev pub bare_operation : String → OperationKind → EventAction → EventOperation
bare_operation drawn kind action = record {
  op_id = drawn;
  op_kind = kind;
  op_action = action;
  op_round = none;
  op_round_id = none;
  op_recipients = [];
  op_steam_id = none;
  op_faction = none;
}

abbrev pub value_of : Option LockField → Option Bool
value_of none = none
value_of (some lock) = lock.lock_value

abbrev pub can_edit : Option LockField → Bool
can_edit none = false
can_edit (some lock) = lock.editable

abbrev pub with_track : EventProgress → Option RoundTrack → EventProgress
with_track progress none = progress
with_track progress (some track) = record progress { tracker = some track }

abbrev pub same_bool : Bool → Bool → Bool
same_bool true b = b
same_bool false b = not b

abbrev pub is_rounds : Option EndReason → Bool
is_rounds (some by_rounds) = true
is_rounds _ = false

-- The branch of a restore without a setting to read or edit.
unfoldable pub restore_unreadable : EventProgress → ℕ → Step
restore_unreadable progress now =
    let since = or_else progress.lock_issue_since now in
    if leb (since + lock_review_ms) now
    then problem_step (some progress) true
    else observe_step stopping (record progress { lock_issue_since = some since })
        (leb (since + lock_alert_ms) now)

-- Another attempt at the restore, at most five and a minute apart.
unfoldable pub restore_attempt : String → String → Bool → EventProgress → ℕ → Step
restore_attempt drawn revision original progress now =
    let attempts : ℕ × ℕ = or_else progress.restore_attempts (0, 0) in
    if leb restore_limit (attempts.0)
    then problem_step (some progress) true
    else if ltb 0 (attempts.0) && ltb now (attempts.1 + restore_gap_ms)
    then observe_step stopping progress false
    else op_step (bare_operation drawn restore_lock (save_lock revision original))
        (record progress { restore_attempts = some (attempts.0 + 1, now) })

abbrev pub restore_value :
    String → String → LockedEvent → EventProgress → ℕ → Option Bool → Bool → Step
restore_value drawn revision locked progress now none editable = restore_unreadable progress now
restore_value drawn revision locked progress now (some value) editable =
    let readable : EventProgress = record progress { lock_issue_since = none } in
    if same_bool value locked.original_lock
    then complete_step
    else if not editable
    then restore_unreadable progress now
    else restore_attempt drawn revision locked.original_lock readable now

-- `restoreStep`
unfoldable pub restore_step :
    String → String → LockedEvent → Option LockField → Option RoundTrack → ℕ → Step
restore_step drawn revision locked lock track now =
    let progress = with_track locked.event.event_progress track in
    if is_rounds locked.stop_reason && not (is_some progress.ended_at)
    then op_step (bare_operation drawn end_event broadcast)
        (record progress { ended_at = some now })
    else restore_value drawn revision locked progress now (value_of lock) (can_edit lock)

-- `stopFor`
unfoldable pub stop_for_lock : LockedEvent → EventProgress → Step
stop_for_lock locked progress =
    if is_vote_event locked.event.event_options
    then stop_step by_lock_changed
    else problem_step (some progress) false

abbrev pub was_confirmed_off : LockedEvent → EventProgress → Bool
was_confirmed_off locked progress =
    not locked.original_lock || is_some progress.lock_disabled_at || is_some locked.restore_revision

-- The lock is on: it is switched off, at most three times, and only where it was on before the event.
unfoldable pub prepare_on : String → String → LockedEvent → EventProgress → Step
prepare_on drawn revision locked progress =
    let attempts = or_else progress.disable_attempts 0 in
    if was_confirmed_off locked progress
    then stop_for_lock locked progress
    else if leb retry_limit attempts
    then (if is_vote_event locked.event.event_options
        then halt_step
        else problem_step (some progress) false)
    else op_step (bare_operation drawn disable_lock (save_lock revision false))
        (record progress { disable_attempts = some (attempts + 1) })

unfoldable pub prepare_unreadable : EventProgress → ℕ → EventState → Step
prepare_unreadable progress now state =
    let since = or_else progress.lock_issue_since now in
    if leb (since + lock_alert_ms) now
    then problem_step (some progress) true
    else observe_step state (record progress { lock_issue_since = some since }) false

-- The lock is off: the announcement, once players are there.
unfoldable pub prepare_off : String → LockedEvent → EventProgress → Option RoundTrack → ℕ → Step
prepare_off drawn locked before track now =
    let progress : EventProgress =
      if locked.original_lock
      then record before { lock_disabled_at = some (or_else before.lock_disabled_at now) }
      else before in
    if elim track [ none ↦ false | some track ↦ is_waiting track.phase ]
    then observe_step locked.event.event_state progress false
    else op_step (bare_operation drawn armed broadcast) progress

abbrev pub prepare_value :
    String
    → String
    → LockedEvent
    → EventProgress
    → Option RoundTrack
    → ℕ
    → Option Bool
    → Bool
    → Step
prepare_value drawn revision locked progress track now none editable =
    prepare_unreadable progress now locked.event.event_state
prepare_value drawn revision locked progress track now (some value) editable =
    let readable : EventProgress = record progress { lock_issue_since = none } in
    if value && not editable
    then prepare_unreadable progress now locked.event.event_state
    else if value
    then prepare_on drawn revision locked readable
    else prepare_off drawn locked readable track now

-- `prepareStep`
unfoldable pub prepare_step :
    String → String → LockedEvent → Option LockField → Option RoundTrack → ℕ → Step
prepare_step drawn revision locked lock track now =
    prepare_value drawn revision locked (with_track locked.event.event_progress track) track now
      (value_of lock) (can_edit lock)
