-- ===== src/Match.antt =====
-- src/module/match.
pub mod Model
pub mod Combat
pub mod Hand
pub mod Turn
pub mod Service
pub mod Fixture
mod Tests
mod Plays
