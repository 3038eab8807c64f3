-- ===== src/Community.antt =====
-- The messages of src/server-community: who joined, when a round began and which text is chosen.
pub mod Rotation
mod RotationLaws
mod Remembered
pub mod Presence
mod RosterLaws
mod Tests
