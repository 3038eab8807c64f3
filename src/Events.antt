-- ===== src/Events.antt =====
-- The 50v50 event of src/server-events: its records, the roster it works on, what it plans next and
-- what a confirmed operation changes, the team lock around it and the outcome of each operation.
pub mod Record
pub mod Roster
pub mod Rules
pub mod Moves
pub mod Plan
pub mod Complete
mod RosterLaws
mod MoveLaws
mod MoveTargets
mod PlanLaws
mod MoveSafe
mod PlanSafe
mod StepLaws
mod OutcomeLaws
mod Refusals
mod Restore
mod Running
mod PlanTests
mod Tests
pub mod Lock
pub mod Steps
pub mod Outcome
