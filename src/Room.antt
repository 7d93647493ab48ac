-- ===== src/Room.antt =====
-- src/module/room: the rooms in which two players meet before a match.
pub mod Model
pub mod Service
pub mod Tests
