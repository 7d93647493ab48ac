-- ===== src/Auction/Service.antt =====
-- src/module/auction/auction.service.ts and consumer/auction.consumer.ts, with `push` of
-- src/module/notification/notification.service.ts.
pub mod Effects
pub mod Writes
pub mod Growing
pub mod Rising
pub mod Refused
pub mod Bids
pub mod Ending
use Prim.Native.String.{String}
use zombiies_api.Common.{
  ℕ, ◌-◌, ◌/◌, ◌≡◌, Bool, true, false, not, ◌||◌, Option, none, some, List, [], ◌∷◌, ◌++◌, leb,
  ◌==◌, if◌then◌else◌, any, Result, ok, err, Error, bad_request, forbidden, not_found, external,
  type_error, or_throw, throw_if, is_ok, Action, and_then, try_catch, lift, gets, modify,
  Collection, find_by_id, update_one, JobQueue,
}
use zombiies_api.Common.Async.{◌>>=◌, ◌>>◌}
use zombiies_api.Ether
use zombiies_api.Ether.{Chain, Receipt}
use zombiies_api.Auction.Model.{
  Auction, BidAction, Notification, Content, has_higher_bid, received_token, received_eth,
  ended_with_no_bid,
}
use zombiies_api.Auction.Env.{AuctionEnv, World, bid_to_beat, with_latest}

module _ {S N Q C : Type 0} (env : AuctionEnv S N Q C) where
  open env use {
    auction_model, notification_model, auction_queue, chain, wallet_of, owner_wallet, parse_ether,
    format_ether,
  }

  abbrev pub AuctionAction : Type 0 → Type 0
  AuctionAction = Action (World S N Q C)

  abbrev pub on_chain : {A : Type 0} → Action C A → AuctionAction A
  on_chain m w = let (r, c) = m w.chain_state in (r, record w { chain_state = c })

  -- `await (await wallet.sendTransaction({ to, value })).wait()`.
  abbrev pub pay : ℕ → ℕ → ℕ → AuctionAction Receipt
  pay from to value = on_chain (Ether.pay chain from to value)

  abbrev pub move_token : ℕ → ℕ → ℕ → ℕ → AuctionAction Receipt
  move_token signer from to token = on_chain (Ether.move_token chain signer from to token)

  -- `NotificationService.push`: an absent user has no `id` to read.
  unfoldable pub push : Option ℕ → Content → AuctionAction (Unit {0})
  push user content = do
    owner ← lift (or_throw user type_error)
    id ← gets (λ w. notification_model.new_id w.notifications)
    let n : Notification = record { id = id; owner = owner; content = content; is_read = false }
    modify (λ w. record w {
      notifications = notification_model.create (λ i. record n { id = i }) w.notifications;
      pushed = w.pushed ++ n ∷ [];
    })

  abbrev pub all_auctions : AuctionAction (List Auction)
  all_auctions = gets (λ w. auction_model.find_many (λ a. true) w.auctions)

  abbrev pub owned_auctions : ℕ → AuctionAction (List Auction)
  owned_auctions user = gets (λ w. auction_model.find_many (λ a. a.seller == user) w.auctions)

  -- The filter `'bidHistory.bidderId': user._id`.
  abbrev pub participated_auctions : ℕ → AuctionAction (List Auction)
  participated_auctions user =
      gets (λ w.
        auction_model.find_many (λ a. any (λ b. b.bidder_id == user) a.bid_history) w.auctions)

  abbrev pub find_auction : ℕ → AuctionAction (Option Auction)
  find_auction id = gets (λ w. find_by_id auction_model id w.auctions)

  abbrev pub find_auction_or_fail : ℕ → AuctionAction Auction
  find_auction_or_fail id = do
    found ← find_auction id
    lift (or_throw found (not_found "Auction not found"))

  abbrev pub refused : Option Error → Result (Unit {0})
  refused none = ok tt
  refused (some e) = err e

  -- A write that the database may refuse.
  abbrev pub write : (S → S) → AuctionAction (Unit {0})
  write f = do
    lift (refused (← gets (λ w. env.refuses w.auctions)))
    modify (λ w. record w { auctions = f w.auctions })

  -- The old bidder gets the latest bid back and is told so; if that fails the new bidder gets the
  -- new bid back.
  unfoldable pub refund : Auction → ℕ → ℕ → AuctionAction (Unit {0})
  unfolding push
  refund auction bidder_address current_bid = elim auction.latest_bid [
    | none ↦ lift (ok tt)
    | some latest ↦
        try_catch
          (do
            to ← lift (or_throw auction.latest_bidder_address type_error)
            _ ← pay owner_wallet to (parse_ether latest)
            push auction.latest_bidder (has_higher_bid auction.id latest))
          (λ e. do _ ← pay owner_wallet bidder_address current_bid; lift (err e))
  ]

  -- What `bid` writes to the auction.
  abbrev pub outbid : Auction → ℕ → ℕ → ℕ → ℕ → Auction → Auction
  outbid read bidder now current_bid hash a = record a {
    latest_bid = some (format_ether current_bid);
    latest_bid_at = some now;
    latest_bidder = some bidder;
    latest_transaction_hash = some hash;
    latest_bidder_address = some (wallet_of bidder);
    bid_history = with_latest read;
  }

  -- The bid is paid, the old one is refunded, and the auction is written. When the write fails the
  -- bid is sent back, and not waited for.
  unfoldable pub place : ℕ → ℕ → Auction → ℕ → AuctionAction (Option Auction)
  unfolding refund
  place now bidder auction current_bid = do
    receipt ← pay (wallet_of bidder) owner_wallet current_bid
    refund auction (wallet_of bidder) current_bid
    try_catch
        (write (
          update_one auction_model auction.id
            (outbid auction bidder now current_bid receipt.transaction_hash)))
        (λ e. do
          _ ← on_chain (chain.send_transaction owner_wallet (wallet_of bidder) current_bid)
          lift (err e))
    find_auction auction.id

  -- `now` is `new Date()`.
  unfoldable pub bid : ℕ → ℕ → ℕ → ℕ → AuctionAction (Option Auction)
  unfolding place
  bid now bidder auction_id current_bid = do
    auction ← find_auction_or_fail auction_id
    lift (
        throw_if (auction.is_ended || env.is_after now auction.end_at)
          (bad_request "Auction has ended"))
    lift (
        throw_if (leb current_bid (parse_ether (bid_to_beat auction)))
          (bad_request "New bid must be greater than old bid"))
    place now bidder auction current_bid

  -- What the seller receives of a bid: a fifth is the tax.
  abbrev pub received : ℕ → ℕ
  received amount = let tax = amount / 5 in amount - tax

  -- The token and the bid change hands.
  unfoldable pub settle : ℕ → Auction → Option ℕ → AuctionAction (Unit {0})
  unfolding push
  settle auction_id auction (some latest) = do
    let amount = received (parse_ether latest)
    _ ← pay owner_wallet auction.seller_address amount
    to ← lift (or_throw auction.latest_bidder_address type_error)
    _ ← move_token owner_wallet owner_wallet to (env.big_number_from auction.token_id)
    push auction.latest_bidder (received_token auction_id auction.token_id)
    push (some auction.seller) (received_eth auction_id (env.to_text amount))
  settle auction_id auction none = do
    _ ←
        move_token owner_wallet owner_wallet auction.seller_address
          (env.big_number_from auction.token_id)
    push (some auction.seller) (ended_with_no_bid auction_id)

  unfoldable pub end_auction : ℕ → AuctionAction (Option Auction)
  unfolding settle
  end_auction auction_id = do
    auction ← find_auction_or_fail auction_id
    settle auction_id auction auction.latest_bid
    write (update_one auction_model auction_id (λ a. record a { is_ended = true }))
    find_auction auction_id

  -- `AuctionConsumer.endAuction`, on the id in the job's data.
  unfoldable pub end_auction_job : ℕ → AuctionAction (Unit {0})
  unfolding end_auction
  end_auction_job auction_id = do _ ← end_auction auction_id; lift (ok tt)

  -- `tokenId` has a unique index.
  abbrev pub save_auction : (ℕ → Auction) → AuctionAction Auction
  save_auction a = do
    id ← gets (λ w. auction_model.new_id w.auctions)
    taken ← gets (λ w. auction_model.find_one (λ b. b.token_id == (a id).token_id) w.auctions)
    lift (elim taken [ none ↦ ok tt | some b ↦ err (external "E11000 duplicate key error") ])
    write (auction_model.create a)
    lift (ok (a id))

  abbrev pub new_auction : ℕ → ℕ → ℕ → ℕ → ℕ → ℕ → Auction
  new_auction seller token start_bid start_at hash id = record {
    id = id;
    token_id = env.to_hex_string token;
    seller = seller;
    seller_address = wallet_of seller;
    start_bid = format_ether start_bid;
    start_at = start_at;
    end_at = env.add_days start_at 1;
    start_transaction_hash = hash;
    latest_transaction_hash = none;
    latest_bid = none;
    latest_bidder = none;
    latest_bidder_address = none;
    latest_bid_at = none;
    bid_history = [];
    is_ended = false;
  }

  -- `now` is the `new Date()` after the token was received.
  unfoldable pub start_auction : ℕ → ℕ → ℕ → ℕ → AuctionAction Auction
  start_auction now seller token start_bid = do
    owns ← on_chain (Ether.is_owner_of chain (wallet_of seller) token)
    lift (throw_if (not owns) (forbidden "You do not owned this token"))
    receipt ← move_token (wallet_of seller) (wallet_of seller) owner_wallet token
    try_catch
        (do
          auction ← save_auction (new_auction seller token start_bid now receipt.transaction_hash)
          modify (λ w. record w { jobs = (auction_queue.add auction.id "1 days" w.jobs).1 })
          lift (ok auction))
        (λ e. do _ ← move_token owner_wallet owner_wallet (wallet_of seller) token; lift (err e))
