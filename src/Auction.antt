-- ===== src/Auction.antt =====
-- src/module/auction: the auctions of tokens, with the notifications that they push.
pub mod Model
pub mod Env
pub mod Service
pub mod Tests
