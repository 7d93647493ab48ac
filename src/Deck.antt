-- ===== src/Deck.antt =====
-- src/module/deck: the decks of the players.
pub mod Model
pub mod Slots
pub mod Service
mod Tests
