-- ===== src/Auction/Env.antt =====
-- What the auction service of src/module/auction/auction.service.ts is built on, and its state.
use zombiies_api.Common.{
  ℕ, ◌≡◌, Bool, Option, none, some, List, [], ◌∷◌, ◌++◌, Error, Collection, JobQueue,
}
use zombiies_api.Ether.{Chain}
use zombiies_api.Auction.Model.{Auction, BidAction, Notification}

pub record AuctionEnv (S N Q C : Type 0) : Type 0 where
  pub auction_model : Collection S Auction
  pub id_lem : (a : Auction) → auction_model.id a ≡ a.id
  pub notification_model : Collection N Notification
  pub auction_queue : JobQueue Q ℕ
  pub chain : Chain C
  -- `getWalletOfUser(user).address` and `ownerWallet.address`.
  pub wallet_of : ℕ → ℕ
  pub owner_wallet : ℕ
  -- ethers: the text of an amount, the amount of a text, and the texts of a number.
  pub parse_ether : ℕ → ℕ
  pub format_ether : ℕ → ℕ
  pub parse-format_ether : (n : ℕ) → parse_ether (format_ether n) ≡ n
  pub to_text : ℕ → ℕ
  pub to_hex_string : ℕ → ℕ
  pub big_number_from : ℕ → ℕ
  -- date-fns.
  pub is_after : ℕ → ℕ → Bool
  pub add_days : ℕ → ℕ → ℕ
  -- The exception of a write that the database refuses for a reason of its own.
  pub refuses : S → Option Error

pub record World (S N Q C : Type 0) : Type 0 where
  pub auctions : S
  pub notifications : N
  pub jobs : Q
  pub chain_state : C
  pub pushed : List Notification

-- `latestBid || startBid`.
abbrev pub bid_to_beat : Auction → ℕ
bid_to_beat a = elim a.latest_bid [ none ↦ a.start_bid | some b ↦ b ]

-- The history with the latest bid, if there is a latest bidder.
abbrev pub with_latest : Auction → List BidAction
with_latest a = elim a.latest_bidder [
  | none ↦ a.bid_history
  | some bidder ↦
      a.bid_history
      ++ record {
        bid = a.latest_bid;
        bidder_id = bidder;
        bidder_address = a.latest_bidder_address;
        bid_at = a.latest_bid_at;
        transaction_hash = a.latest_transaction_hash;
      }
        ∷ []
]
