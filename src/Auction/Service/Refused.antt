-- ===== src/Auction/Service/Refused.antt =====
-- `bid` of src/module/auction/auction.service.ts when the database refuses its write.
use mathlib.Core.List.{append_assoc}
use zombiies_api.Common.{
  ℕ, ◌<◌, ◌≡◌, refl, ap, ◌∙◌, ◌⊎◌, inl, inr, true, false, err, ◌||◌, some, [], ◌∷◌, ◌++◌, leb, ok,
  Error, is_ok, arith, Result-cases, and_then, find_by_id,
}
use zombiies_api.Ether.{paid, Receipt}
use zombiies_api.Auction.Model.{Auction}
use zombiies_api.Auction.Service.{pay, refund, bid, place}
use zombiies_api.Auction.Env.{AuctionEnv, World, bid_to_beat}
use zombiies_api.Auction.Service.Effects.{paid_so_far, pay-ok}
use zombiies_api.Auction.Service.Bids.{refunds, refund-ok}

module _ {S N Q C : Type 0} (env : AuctionEnv S N Q C) where
  open env use {auction_model, chain, wallet_of, owner_wallet, parse_ether}

  -- When an accepted bid is paid, the refund of the old bidder, if there is one, is paid too, and
  -- the database then refuses the write, `bid` fails and the auction is as it was: a latest bid
  -- that has been given back is still stored. On the chain there are only these payments since, and
  -- the transaction that sends the new bid back was sent, which is not waited for, with the error
  -- of the write as the answer; or the sending failed, with its error as the answer.
  pub bid-write_refused :
      (now bidder id value : ℕ) (a : Auction) (receipt : Receipt) (x : Error) (w : World S N Q C)
      → find_by_id auction_model id w.auctions ≡ some a
      → (a.is_ended || env.is_after now a.end_at) ≡ false
      → parse_ether (bid_to_beat a) < value
      → (pay env (wallet_of bidder) owner_wallet value w).0 ≡ ok receipt
      → (refund env a
          (wallet_of bidder)
          value
          (pay env (wallet_of bidder) owner_wallet value w).1).0
        ≡ ok tt
      → env.refuses w.auctions ≡ some x
      → let out = bid env now bidder id value w in
        (out.1.auctions ≡ w.auctions)
        × (c : C) × (chain.history c
            ≡ paid_so_far env w ++ paid (wallet_of bidder) owner_wallet value ∷ refunds env a)
        × (out.1.chain_state ≡ (chain.send_transaction owner_wallet (wallet_of bidder) value c).1)
        × (((is_ok (chain.send_transaction owner_wallet (wallet_of bidder) value c).0 ≡ true)
              × (out.0 ≡ err x))
            ⊎ ((y : Error) × ((chain.send_transaction owner_wallet (wallet_of bidder) value c).0
                  ≡ err y)
                × (out.0 ≡ err y)))
  unfolding bid place
  bid-write_refused now bidder id value a receipt x w f open_still high p r n =
      let payment = pay env (wallet_of bidder) owner_wallet value w in
      let back = refund env a (wallet_of bidder) value payment.1 in
      let above : leb value (parse_ether (bid_to_beat a)) ≡ false = ground (arith, high) in
      let (history, kept) = refund-ok env a (wallet_of bidder) value payment.1 r in
      let refused : env.refuses back.1.auctions ≡ some x = ap env.refuses kept ∙ n in
      let before : chain.history back.1.chain_state
          ≡ paid_so_far env w ++ paid (wallet_of bidder) owner_wallet value ∷ refunds env a =
        history
        ∙ ap (λ ts. ts ++ refunds env a)
            (pay-ok env (wallet_of bidder) owner_wallet value receipt w p)
        ∙ append_assoc (paid_so_far env w) (paid (wallet_of bidder) owner_wallet value ∷ [])
            (refunds env a) in
      elim (Result-cases
        (chain.send_transaction owner_wallet (wallet_of bidder) value back.1.chain_state).0) [
          | inl (tx, s) ↦ rw f (
              rw (open_still, above)
                (rw (p, and_then)
                  (rw (r, and_then)
                    (rw refused (
                      rw (s, and_then)
                        (kept, back.1.chain_state, before, refl, inl (rw s refl, refl)))))))
          | inr (y, s) ↦ rw f (
              rw (open_still, above)
                (rw (p, and_then)
                  (rw (r, and_then)
                    (rw refused (
                      rw (s, and_then)
                        (kept, back.1.chain_state, before, refl, inr (y, s, refl)))))))
        ]
