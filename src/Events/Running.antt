-- ===== src/Events/Running.antt =====
-- A running vote-started event of src/server-events/server-events.service.ts from pass to pass, until it
-- stops.
use uncs_bot.Common.{
  Bool, List, Option, String, [], false, none, not, some, true, ℕ, ◌&&◌, ◌||◌, ◌∷◌,
}
use uncs_bot.Rounds.Track.{RoundTrack}
use uncs_bot.Events.Record.{EventOperation, EventProgress, EventSnapshot, EventState}
use uncs_bot.Events.Lock.{LockField, LockedEvent, observe_step, op_step, problem_step}
use uncs_bot.Events.Steps.{is_review, run_step}
use uncs_bot.Events.Outcome.{ActionResult, Outcome, outcome}

-- What a pass reads, and the result of the action if it sends one.
pub record RunPass : Type 0 where
  pub run_drawn : String
  pub run_lock : Option LockField
  pub run_snapshot : EventSnapshot
  pub run_track : Option RoundTrack
  pub run_at : ℕ
  pub run_result : ActionResult
  pub run_result_at : ℕ

abbrev run_outcome : RunPass → LockedEvent → EventOperation → EventProgress → Option Outcome
run_outcome pass locked op progress =
    outcome (record locked.event { event_progress = progress }) op pass.run_result
      pass.run_result_at

abbrev in_state : LockedEvent → EventState → EventProgress → LockedEvent
in_state locked state progress = record locked {
  event = record locked.event { event_state = state; event_progress = progress };
}

-- Whether one of the passes leaves the event to staff; a stop or a halt ends them.
unfoldable pub ever_left_to_staff : List RunPass → LockedEvent → Bool
ever_left_to_staff [] locked = is_review locked.event.event_state
ever_left_to_staff (pass ∷ passes) locked =
    elim (run_step pass.run_drawn locked pass.run_lock pass.run_snapshot pass.run_track
      pass.run_at) [
        | none ↦ true
        | some (op_step op progress) ↦ elim (run_outcome pass locked op progress) [
          | none ↦ false
          | some result ↦
              is_review result.outcome_state
              || not result.outcome_halt
                && ever_left_to_staff passes
                    (in_state locked result.outcome_state result.outcome_progress)
        ]
        | some (observe_step state progress alerted) ↦
            ever_left_to_staff passes (in_state locked state progress)
        | some (problem_step progress alert) ↦ true
        | some _ ↦ false
      ]
