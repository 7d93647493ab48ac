-- ===== src/Auction/Tests.antt =====
-- An auction in memory on a chain that mines every transaction, on which the theorems of Auction are
-- applied.
use zombiies_api.Common.{
  ℕ, ◌⊎◌, is_ok, Error, external, ◌+◌, ◌/◌, ◌≤◌, ◌<◌, ◌≡◌, refl, true, false, ◌||◌, none, some,
  List, [], ◌∷◌, ◌++◌, ok, err, bad_request, not_found, find_by_id, update_one, ltb,
}
use zombiies_api.Common.Memory.{memory, memory_queue}
use zombiies_api.Auction.Model.{Auction, Notification}
use zombiies_api.Ether.{Transfer, paid, moved}
use zombiies_api.Ether.Memory.{mined, receipt}
use zombiies_api.Auction.Service.{bid, outbid, received, end_auction}
use zombiies_api.Auction.Env.{AuctionEnv, World, bid_to_beat}
use zombiies_api.Auction.Service.Effects.{paid_so_far}
use zombiies_api.Auction.Service.Bids.{refunds, bid_refused, bid-ok}
use zombiies_api.Auction.Service.{end_auction_job, start_auction, refund, pay}
use zombiies_api.Common.{external, is_ok, arith}
use zombiies_api.Auction.Service.Refused.{bid-write_refused}
use zombiies_api.Auction.Service.Rising.{Call, starts, bids, ends, after_calls, after_calls-Grows}
use zombiies_api.Auction.Service.Growing.{Grows}
use zombiies_api.Auction.Service.Ending.{end_auction-pays}

abbrev pub env : AuctionEnv (List Auction) (List Notification) (List (ℕ × ℕ)) (List Transfer)
env = record {
  auction_model = memory (λ a. a.id);
  id_lem = λ a. refl;
  notification_model = memory (λ n. n.id);
  auction_queue = memory_queue;
  chain = mined;
  wallet_of = λ user. 100 + user;
  owner_wallet = 1;
  parse_ether = λ n. n;
  format_ether = λ n. n;
  parse-format_ether = λ n. refl;
  to_text = λ n. n;
  to_hex_string = λ n. n;
  big_number_from = λ n. n;
  is_after = λ a b. ltb b a;
  add_days = λ day n. day + n;
  refuses = λ s. none;
}

abbrev running : Auction
running = record {
  id = 3;
  token_id = 40;
  seller = 5;
  seller_address = 105;
  start_bid = 10;
  start_at = 0;
  end_at = 9;
  start_transaction_hash = 70;
  latest_transaction_hash = some 71;
  latest_bid = some 12;
  latest_bidder = some 6;
  latest_bidder_address = some 106;
  latest_bid_at = some 1;
  bid_history = [];
  is_ended = false;
}

abbrev pub world : World (List Auction) (List Notification) (List (ℕ × ℕ)) (List Transfer)
world = record {
  auctions = running ∷ [];
  notifications = [];
  jobs = [];
  chain_state = [];
  pushed = [];
}

bid_refused_example :
    let (r, v) = bid env 4 7 3 12 world in
    let found = find_by_id env.auction_model 3 world.auctions in
    (found ≡ none → (r ≡ err (not_found "Auction not found")) × (v ≡ world))
    × ((a : Auction)
        → found ≡ some a
        → (a.is_ended || env.is_after 4 a.end_at) ≡ true
        → (r ≡ err (bad_request "Auction has ended")) × (v ≡ world))
    × ((a : Auction)
        → found ≡ some a
        → (a.is_ended || env.is_after 4 a.end_at) ≡ false
        → 12 ≤ env.parse_ether (bid_to_beat a)
        → (r ≡ err (bad_request "New bid must be greater than old bid")) × (v ≡ world))
bid_refused_example = bid_refused env 4 7 3 12 world

abbrev next_bid : Auction
next_bid = outbid env running 7 4 20 77 running

bid_works : (bid env 4 7 3 20 world).0 ≡ ok (some next_bid)
unfolding bid
bid_works = refl

bid-ok_example :
    let v = (bid env 4 7 3 20 world).1 in
    (a : Auction) × (hash : ℕ) × (find_by_id env.auction_model 3 world.auctions ≡ some a)
    × ((a.is_ended || env.is_after 4 a.end_at) ≡ false)
    × (env.parse_ether (bid_to_beat a) < 20)
    × (paid_so_far env v ≡ paid_so_far env world ++ paid 107 1 20 ∷ refunds env a)
    × (v.auctions ≡ update_one env.auction_model a.id (outbid env a 7 4 20 hash) world.auctions)
    × (some next_bid ≡ some (outbid env a 7 4 20 hash a))
bid-ok_example = bid-ok env 4 7 3 20 (some next_bid) world (refl, tt) bid_works

end_works : (end_auction env 3 world).0 ≡ ok (some (record running { is_ended = true }))
unfolding end_auction
end_works = refl

end_auction-pays_example :
    let v = (end_auction env 3 world).1 in
    (paid_so_far env v ≡ paid 1 105 (received env 12) ∷ moved 1 106 40 ∷ [])
    × (received env 12 + 12 / 5 ≡ 12)
    × (v.auctions
        ≡ update_one env.auction_model 3 (λ d. record d { is_ended = true }) world.auctions)
end_auction-pays_example =
    end_auction-pays env 3 12 106 running (some (record running { is_ended = true })) world refl
      refl refl end_works

-- A bid, a lower one, the end of the auction and a bid after it.
abbrev calls : List Call
calls = bids 4 7 3 20 ∷ bids 4 6 3 15 ∷ ends 3 ∷ bids 5 6 3 50 ∷ starts 5 5 41 2 ∷ []

after_calls-Grows_example :
    (b : Auction) × (find_by_id env.auction_model 3 (after_calls env calls world).auctions ≡ some b)
    × Grows env running b
after_calls-Grows_example = after_calls-Grows env calls 3 running world refl

after_calls_end :
    find_by_id env.auction_model 3 (after_calls env calls world).auctions
    ≡ some (record next_bid { is_ended = true })
unfolding after_calls bid end_auction_job end_auction start_auction
after_calls_end = refl

-- The same with a database that refuses every write.
abbrev refusing : AuctionEnv (List Auction) (List Notification) (List (ℕ × ℕ)) (List Transfer)
refusing = record env { refuses = λ s. some (external "not primary") }

old_bidder_gets_back : (refund refusing running 107 20 (pay refusing 107 1 20 world).1).0 ≡ ok tt
unfolding refund
old_bidder_gets_back = refl

bid-write_refused_example :
    let out = bid refusing 4 7 3 20 world in
    (out.1.auctions ≡ running ∷ [])
    × (c : List Transfer) × (c ≡ paid 107 1 20 ∷ paid 1 106 12 ∷ [])
    × (out.1.chain_state ≡ (mined.send_transaction 1 107 20 c).1)
    × (((is_ok (mined.send_transaction 1 107 20 c).0 ≡ true)
          × (out.0 ≡ err (external "not primary")))
        ⊎ ((y : Error) × ((mined.send_transaction 1 107 20 c).0 ≡ err y) × (out.0 ≡ err y)))
bid-write_refused_example =
    bid-write_refused refusing 4 7 3 20 running (receipt 77) (external "not primary") world refl
      refl (omega arith) refl old_bidder_gets_back refl
