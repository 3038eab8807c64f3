-- ===== src/Admin.antt =====
-- The configuration documents of src/admin.
pub mod Whitelist
pub mod Reading
mod ReadingLaws
mod Lines
mod Entries
mod Edited
mod WhitelistLaws
mod Saved
mod OtherLines
mod Tests
