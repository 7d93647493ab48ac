-- ===== src/Card.antt =====
-- src/module/card.
pub mod Model
pub mod Receipt
pub mod Schema
pub mod Draws
pub mod Tokens
pub mod Service
pub mod Mint
pub mod Command
pub mod Seed
pub mod Tests
