-- ===== src/StaffAlerts.antt =====
-- Staff alerts: what the bot infers from its reads of the game.
pub mod Health
pub mod Observe
pub mod Monitor
pub mod Outages
mod OutageNews
pub mod Restarts
mod Tests
pub mod Seeding
mod SeedingLaws
mod SeedingTests
