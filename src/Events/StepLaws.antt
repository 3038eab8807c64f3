-- ===== src/Events/StepLaws.antt =====
-- The steps of src/server-events/server-events.service.ts: the team lock is written only as it should be,
-- a bounded number of times.
use uncs_bot.Common.{
  Bool, Option, Option-cases, String, arith, false, inl, inr, is_some, leb, none, not, or_else,
  some, true, ℕ, ◌&&◌, ◌+◌, ◌==◌, ◌≡◌,
}
use uncs_bot.Rounds.Track.{RoundTrack}
use uncs_bot.Events.Record.{
  EventOperation, EventPlan, EventProgress, EventRecord, EventSnapshot, is_vote_event, save_lock,
}
use uncs_bot.Events.Lock.{
  LockField, LockedEvent, Step, can_edit, complete_step, observe_step, op_step, prepare_off,
  prepare_on, prepare_step, prepare_unreadable, problem_step, restore_attempt, restore_limit,
  restore_step, restore_unreadable, retry_limit, same_bool, stop_for_lock, value_of,
}
use uncs_bot.Events.PlanSafe.{plan_event-PlanOk}
use uncs_bot.Events.MoveSafe.{plan_ok}
use uncs_bot.Events.Steps.{
  is_review, run_step, run_unreadable, step_of, step_of_plan, step_without_stop,
}

-- A write of the lock: the value written.
abbrev pub written : EventOperation → Option Bool
written op = elim op.op_action [ save_lock revision value ↦ some value | _ ↦ none ]

abbrev pub attempts_of : EventProgress → ℕ
attempts_of progress = elim progress.restore_attempts [ none ↦ 0 | some attempts ↦ attempts.0 ]

-- A restore step's write has the value from before the event, over another one that may be edited, and
-- counts as one more of at most five attempts; a completed restore found that value.
unfoldable pub restore_fits : LockedEvent → Option LockField → Step → Bool
restore_fits locked lock (op_step op progress) = elim (written op) [
  | none ↦ true
  | some value ↦
      same_bool value locked.original_lock
      && elim (value_of lock) [ none ↦ false | some seen ↦ not (same_bool seen value) ]
      && can_edit lock
      && attempts_of progress == attempts_of locked.event.event_progress + 1
      && leb (attempts_of progress) restore_limit
]
restore_fits locked lock complete_step = elim (value_of lock) [
  | none ↦ false
  | some seen ↦ same_bool seen locked.original_lock
]
restore_fits locked lock _ = true

pub restore_step-restore_fits :
    (drawn revision : String) (locked : LockedEvent) (lock : Option LockField)
    (track : Option RoundTrack) (now : ℕ)
    → restore_fits locked lock (restore_step drawn revision locked lock track now) ≡ true
unfolding restore_fits restore_step restore_unreadable restore_attempt
restore_step-restore_fits drawn revision locked lock track now = ground arith

-- A preparing step's write switches off a lock that was on before the event, is on, may be edited and was
-- not already switched off by the event, as one more of at most three attempts.
unfoldable pub prepare_fits : LockedEvent → Option LockField → Step → Bool
prepare_fits locked lock (op_step op progress) =
    let before = locked.event.event_progress in
    elim (written op) [
      | none ↦ true
      | some value ↦
          not value
          && locked.original_lock
          && elim (value_of lock) [ none ↦ false | some seen ↦ seen ]
          && can_edit lock
          && not (is_some before.lock_disabled_at)
          && not (is_some locked.restore_revision)
          && or_else progress.disable_attempts 0 == or_else before.disable_attempts 0 + 1
          && leb (or_else progress.disable_attempts 0) retry_limit
    ]
prepare_fits locked lock _ = true

pub prepare_step-prepare_fits :
    (drawn revision : String) (locked : LockedEvent) (lock : Option LockField)
    (track : Option RoundTrack) (now : ℕ)
    → prepare_fits locked lock (prepare_step drawn revision locked lock track now) ≡ true
unfolding prepare_fits prepare_step prepare_unreadable prepare_on prepare_off stop_for_lock
prepare_step-prepare_fits drawn revision locked lock track now = ground arith

abbrev pub is_problem : Option Step → Bool
is_problem none = true
is_problem (some (problem_step progress alert)) = true
is_problem (some (observe_step state progress alerted)) = is_review state
is_problem (some _) = false

step_of_plan-no_problem :
    (event : EventRecord) (plan : Option EventPlan)
    → is_vote_event event.event_options ≡ true
    → is_review event.event_state ≡ false
    → plan_ok event plan ≡ true
    → is_problem (step_of plan) ≡ false
unfolding step_of_plan step_without_stop plan_ok
step_of_plan-no_problem event none v r h = absurd (cc)
step_of_plan-no_problem event (some plan) v r h = ground arith

-- While it runs, a vote-started event always has a next step, and that step never leaves it to staff.
pub run_step-no_problem :
    (drawn : String) (locked : LockedEvent) (lock : Option LockField) (snapshot : EventSnapshot)
    (track : Option RoundTrack) (now : ℕ)
    → is_vote_event locked.event.event_options ≡ true
    → is_review locked.event.event_state ≡ false
    → is_problem (run_step drawn locked lock snapshot track now) ≡ false
unfolding run_step run_unreadable stop_for_lock
run_step-no_problem drawn locked lock snapshot track now v r = elim (Option-cases (value_of lock)) [
  | inl n ↦ rw (n, run_step) (ground arith)
  | inr (true, s) ↦ rw (s, run_step) (ground arith)
  | inr (false, s) ↦
      rw (s, run_step)
        (step_of_plan-no_problem locked.event _ v r
          (plan_event-PlanOk drawn locked.event snapshot now track))
]
