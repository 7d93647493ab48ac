-- ===== src/Auction/Model.antt =====
-- src/module/auction/schema/auction.schema.ts, src/module/notification/schema/notification.schema.ts
-- and the messages that the auction service pushes. An amount in ETH is stored as its decimal text,
-- a date is a number of milliseconds.
use zombiies_api.Common.{ℕ, Option, Bool, List}

pub record BidAction : Type 0 where
  pub bid : Option ℕ
  pub bidder_id : ℕ
  pub bidder_address : Option ℕ
  pub bid_at : Option ℕ
  pub transaction_hash : Option ℕ

pub record Auction : Type 0 where
  pub id : ℕ
  pub token_id : ℕ
  pub seller : ℕ
  pub seller_address : ℕ
  pub start_bid : ℕ
  pub start_at : ℕ
  pub end_at : ℕ
  pub start_transaction_hash : ℕ
  pub latest_transaction_hash : Option ℕ
  pub latest_bid : Option ℕ
  pub latest_bidder : Option ℕ
  pub latest_bidder_address : Option ℕ
  pub latest_bid_at : Option ℕ
  pub bid_history : List BidAction
  pub is_ended : Bool

-- The texts of the service's notifications, by what they are built from.
pub data Content : Type 0 where
  has_higher_bid received_token received_eth : ℕ → ℕ → Content
  ended_with_no_bid : ℕ → Content
  -- The text that an administrator pushes.
  hohoho : Content

pub record Notification : Type 0 where
  pub id : ℕ
  pub owner : ℕ
  pub content : Content
  pub is_read : Bool
