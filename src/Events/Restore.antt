-- ===== src/Events/Restore.antt =====
-- A stopped event of src/server-events/server-events.service.ts from pass to pass: each pass takes a step
-- and carries the outcome of its operation into the next.
use uncs_bot.Common.{
  Bool, List, Option, String, [], false, if◌then◌else◌, is_some, leb, ltb, none, not, some, true, ℕ,
  ◌&&◌, ◌+◌, ◌-◌, ◌==◌, ◌||◌, ◌∷◌, ◌≡◌, ◌≤◌,
}
use uncs_bot.Rounds.Track.{RoundTrack}
use uncs_bot.Events.Record.{
  EventOperation, EventProgress, EventState, OperationKind, complete, end_event, needs_review,
}
use uncs_bot.Events.Lock.{
  EndReason, LockField, LockedEvent, Step, is_rounds, observe_step, op_step, restore_gap_ms,
  restore_limit, restore_step,
}
use uncs_bot.Events.Outcome.{ActionResult, Outcome, is_restore, outcome}
use uncs_bot.Events.StepLaws.{attempts_of}

-- What a pass reads, and the result of the action if it sends one.
pub record Pass : Type 0 where
  pub pass_drawn : String
  pub pass_revision : String
  pub pass_lock : LockField
  pub pass_track : Option RoundTrack
  pub pass_at : ℕ
  pub pass_result : ActionResult
  pub result_at : ℕ

abbrev is_over : EventState → Bool
is_over complete = true
is_over needs_review = true
is_over _ = false

abbrev with_progress : LockedEvent → EventProgress → LockedEvent
with_progress locked progress = record locked {
  event = record locked.event { event_progress = progress };
}

abbrev with_outcome : LockedEvent → Outcome → LockedEvent
with_outcome locked outcome = record locked {
  event = record locked.event {
    event_state = outcome.outcome_state;
    event_progress = outcome.outcome_progress;
  };
}

-- The outcome of a pass's operation, which was stored with the progress.
abbrev pass_outcome : Pass → LockedEvent → EventOperation → EventProgress → Option Outcome
pass_outcome pass locked op progress =
    outcome (record locked.event { event_progress = progress }) op pass.pass_result pass.result_at

-- Whether the passes complete the restore or ask staff to check the lock.
unfoldable pub restore_settles : List Pass → LockedEvent → Bool
restore_settles [] locked = false
restore_settles (pass ∷ passes) locked =
    elim (restore_step pass.pass_drawn pass.pass_revision locked (some pass.pass_lock)
      pass.pass_track pass.pass_at) [
        | op_step op progress ↦ elim (pass_outcome pass locked op progress) [
          | none ↦ false
          | some outcome ↦
              is_over outcome.outcome_state || restore_settles passes (with_outcome locked outcome)
        ]
        | observe_step state progress alerted ↦
            restore_settles passes (with_progress locked progress)
        | _ ↦ true
      ]

abbrev pub last_attempt : EventProgress → ℕ
last_attempt progress = elim progress.restore_attempts [ none ↦ 0 | some attempts ↦ attempts.1 ]

-- The operations still to be sent: the attempts left, and the notice that the rounds are over.
unfoldable pub sends_left : Option EndReason → EventProgress → ℕ
sends_left stop progress =
    (restore_limit - attempts_of progress)
    + (if is_rounds stop && not (is_some progress.ended_at) then 1 else 0)

abbrev is_notice : OperationKind → Bool
is_notice end_event = true
is_notice _ = false

unfoldable progresses : LockedEvent → ℕ → Step → Bool
progresses locked now (op_step op progress) =
    ltb (sends_left locked.stop_reason progress)
      (sends_left locked.stop_reason locked.event.event_progress)
    && leb (last_attempt progress) now
    && ((is_restore op.op_kind || is_notice op.op_kind)
        && (not (is_notice op.op_kind) || is_some progress.ended_at))
progresses locked now (observe_step state progress alerted) = false
progresses locked now _ = true

-- The outcome of one of the two operations keeps what was counted, or ends the restore.
unfoldable keeps_count : EventProgress → Option Outcome → Bool
keeps_count before none = false
keeps_count before (some outcome) =
    let after = outcome.outcome_progress in
    is_over outcome.outcome_state
    || attempts_of after == attempts_of before
      && last_attempt after == last_attempt before
      && (is_some after.ended_at || not (is_some before.ended_at))

-- Every pass reads a lock that may be edited, a minute or more after the one before.
abbrev pub Spaced : ℕ → List Pass → Type 0
Spaced last [] = Unit
Spaced last (pass ∷ passes) =
    (is_some pass.pass_lock.lock_value ≡ true)
    × (pass.pass_lock.editable ≡ true)
    × (last + restore_gap_ms ≤ pass.pass_at)
    × Spaced pass.pass_at passes
