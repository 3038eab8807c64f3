-- ===== src/Supporters.antt =====
-- Supporter records, the founder rule and automatic matching: src/supporters.
pub mod SteamId
pub mod Steam
pub mod SteamLaws
pub mod Founder
pub mod Policy
pub mod Automatic
pub mod FounderLaws
pub mod NextSteps
pub mod StepOrder
pub mod StepLaws
mod Tests
