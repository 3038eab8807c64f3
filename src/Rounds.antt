-- ===== src/Rounds.antt =====
-- Rounds of a match, inferred from reads of the game.
pub mod Track
pub mod Gap
pub mod Tracker
pub mod TrackerLaws
mod Tests
