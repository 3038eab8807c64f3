-- ===== src/Ballots.antt =====
-- Map votes: what a ballot offers, where its winner goes in the rotation, and who wins.
pub mod Selection
pub mod Placement
pub mod PlacementLaws
pub mod Policy
pub mod Builder
pub mod Ballot
pub mod BuilderLaws
pub mod BallotLaws
pub mod Winner
pub mod WinnerLaws
pub mod PolicyLaws
mod Tests
