-- ===== src/Events/Steps.antt =====
-- The step of a pass and the outcome of an operation in src/server-events/server-events.service.ts. A
-- step is none where planning throws.
use uncs_bot.Common.{
  Bool, Option, String, false, if◌then◌else◌, is_some, leb, none, not, or_else, some, true, ℕ, ◌&&◌,
  ◌+◌,
}
use uncs_bot.Rounds.Track.{RoundTrack}
use uncs_bot.Events.Record.{
  EventPlan, EventProgress, EventRecord, EventSnapshot, EventState, EventStopReason, is_vote_event,
  needs_review, preparing, stop_population, stop_roster, stop_rounds,
}
use uncs_bot.Events.Plan.{plan_event}
use uncs_bot.Events.Lock.{
  EndReason, LockField, LockedEvent, Step, by_population, by_roster, by_rounds, complete_step,
  halt_step, lock_alert_ms, observe_step, op_step, prepare_step, problem_step, restore_step,
  stop_for_lock, stop_step, value_of,
}

abbrev pub end_reason : EventStopReason → EndReason
end_reason stop_rounds = by_rounds
end_reason stop_roster = by_roster
end_reason stop_population = by_population

abbrev pub is_review : EventState → Bool
is_review needs_review = true
is_review _ = false

unfoldable pub step_without_stop : EventPlan → EventProgress → Step
step_without_stop plan progress = elim plan.plan_operation [
  | some op ↦ op_step op progress
  | none ↦
      if is_review plan.plan_state
      then problem_step (some progress) false
      else observe_step plan.plan_state progress false
]

-- The step that a plan leads to.
unfoldable pub step_of_plan : EventPlan → Step
step_of_plan plan = elim plan.plan_stop [
  | some reason ↦ stop_step (end_reason reason)
  | none ↦
      if plan.plan_halt
      then halt_step
      else step_without_stop plan (record plan.plan_progress { lock_issue_since = none })
]

-- The lock could not be read during the event.
unfoldable pub run_unreadable : EventRecord → ℕ → Step
run_unreadable event now =
    let before = event.event_progress in
    let since = or_else before.lock_issue_since now in
    if not (is_vote_event event.event_options)
    then problem_step none false
    else if leb (since + lock_alert_ms) now
    then halt_step
    else observe_step event.event_state (record before { lock_issue_since = some since }) false

abbrev pub step_of : Option EventPlan → Option Step
step_of none = none
step_of (some plan) = some (step_of_plan plan)

abbrev pub run_value :
    String → LockedEvent → EventSnapshot → Option RoundTrack → ℕ → Option Bool → Option Step
run_value drawn locked snapshot track now none = some (run_unreadable locked.event now)
run_value drawn locked snapshot track now (some true) =
    some (stop_for_lock locked locked.event.event_progress)
run_value drawn locked snapshot track now (some false) =
    step_of (plan_event drawn locked.event snapshot now track)

-- `runStep`
unfoldable pub run_step :
    String → LockedEvent → Option LockField → EventSnapshot → Option RoundTrack → ℕ → Option Step
run_step drawn locked lock snapshot track now =
    run_value drawn locked snapshot track now (value_of lock)

abbrev pub is_preparing : EventState → Bool
is_preparing preparing = true
is_preparing _ = false

-- A stopped event whose lock was off before it is complete without a write: `completeUnchanged`.
abbrev pub completes_unchanged : LockedEvent → Bool
completes_unchanged locked = is_some locked.stop_reason && not locked.original_lock

-- The step that `tick` chooses once the settings are read and an administrator is confirmed.
unfoldable pub next_step :
    String
    → String
    → LockedEvent
    → Option LockField
    → EventSnapshot
    → Option RoundTrack
    → ℕ
    → Option Step
next_step drawn revision locked lock snapshot track now =
    if completes_unchanged locked
    then some complete_step
    else if is_some locked.stop_reason
    then some (restore_step drawn revision locked lock track now)
    else if is_preparing locked.event.event_state
    then some (prepare_step drawn revision locked lock track now)
    else run_step drawn locked lock snapshot track now
