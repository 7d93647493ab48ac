-- ===== src/Auction/Service/Growing.antt =====
-- The later states of an auction of src/module/auction/auction.service.ts.
use mathlib.Core.List.{append-nil, append_assoc}
use zombiies_api.Common.{
  ℕ, ◌≤◌, ◌<◌, ◌≡◌, refl, sym, ap, ◌∙◌, inl, inr, true, false, List, [], ◌∷◌, ◌++◌, arith,
  Option-cases,
}
use zombiies_api.Auction.Model.{Auction, BidAction}
use zombiies_api.Auction.Service.{outbid}
use zombiies_api.Auction.Env.{AuctionEnv, bid_to_beat, with_latest}
use zombiies_api.Auction.Service.Writes.{ended}

module _ {S N Q C : Type 0} (env : AuctionEnv S N Q C) where
  open env use {auction_model, parse_ether, format_ether}

  -- A later state of an auction: the same token, seller, first bid and dates, a bid to beat that
  -- has not fallen, a history that has only got longer, and the same bidder if it was over.
  pub record Grows (a b : Auction) : Type 0 where
    pub same_id : b.id ≡ a.id
    pub same_token : b.token_id ≡ a.token_id
    pub same_seller : (b.seller ≡ a.seller) × (b.seller_address ≡ a.seller_address)
    pub same_start : (b.start_bid ≡ a.start_bid) × (b.start_at ≡ a.start_at) × (b.end_at ≡ a.end_at)
    pub rises : parse_ether (bid_to_beat a) ≤ parse_ether (bid_to_beat b)
    pub over :
        a.is_ended ≡ true
        → (b.is_ended ≡ true)
          × (b.latest_bid ≡ a.latest_bid)
          × (b.latest_bidder ≡ a.latest_bidder)
          × (b.latest_bidder_address ≡ a.latest_bidder_address)
    pub history : (bids : List BidAction) × (b.bid_history ≡ a.bid_history ++ bids)

  pub Grows-refl : (a : Auction) → Grows a a
  Grows-refl a = record {
    same_id = refl;
    same_token = refl;
    same_seller = (refl, refl);
    same_start = (refl, refl, refl);
    rises = omega arith;
    over = λ e. (e, refl, refl, refl);
    history = ([], sym (append-nil a.bid_history));
  }

  pub Grows-trans : (a b c : Auction) → Grows a b → Grows b c → Grows a c
  Grows-trans a b c g h = record {
    same_id = h.same_id ∙ g.same_id;
    same_token = h.same_token ∙ g.same_token;
    same_seller = (h.same_seller.0 ∙ g.same_seller.0, h.same_seller.1 ∙ g.same_seller.1);
    same_start = (
      h.same_start.0 ∙ g.same_start.0,
      h.same_start.1 ∙ g.same_start.1,
      h.same_start.2 ∙ g.same_start.2,
    );
    rises = omega (arith, g.rises, h.rises);
    over = λ e.
        let (b_over, bid₁, bidder₁, address₁) = g.over e in
        let (c_over, bid₂, bidder₂, address₂) = h.over b_over in
        (c_over, bid₂ ∙ bid₁, bidder₂ ∙ bidder₁, address₂ ∙ address₁);
    history = (
      g.history.0 ++ h.history.0,
      h.history.1
          ∙ ap (λ bs. bs ++ h.history.0) g.history.1
          ∙ append_assoc a.bid_history g.history.0 h.history.0,
    );
  }

  with_latest-longer : (a : Auction) → (bs : List BidAction) × (with_latest a ≡ a.bid_history ++ bs)
  with_latest-longer a = elim (Option-cases a.latest_bidder) [
    | inl n ↦ ([], rw n (sym (append-nil a.bid_history)))
    | inr (u, n) ↦
        let newest : BidAction = record {
          bid = a.latest_bid;
          bidder_id = u;
          bidder_address = a.latest_bidder_address;
          bid_at = a.latest_bid_at;
          transaction_hash = a.latest_transaction_hash;
        } in
        (newest ∷ [], rw n refl)
  ]

  pub outbid-Grows :
      (a : Auction) (bidder now value hash : ℕ)
      → a.is_ended ≡ false
      → parse_ether (bid_to_beat a) < value
      → Grows a (outbid env a bidder now value hash a)
  outbid-Grows a bidder now value hash open_still less = record {
    same_id = refl;
    same_token = refl;
    same_seller = (refl, refl);
    same_start = (refl, refl, refl);
    rises = rw (env.parse-format_ether value) (omega (arith, less));
    over = λ e. let bad : true ≡ false = sym e ∙ open_still in cc;
    history = with_latest-longer a;
  }

  pub ended-Grows : (a : Auction) → Grows a (ended env a)
  ended-Grows a = record {
    same_id = refl;
    same_token = refl;
    same_seller = (refl, refl);
    same_start = (refl, refl, refl);
    rises = omega arith;
    over = λ e. (refl, refl, refl, refl);
    history = ([], sym (append-nil a.bid_history));
  }
