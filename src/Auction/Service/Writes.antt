-- ===== src/Auction/Service/Writes.antt =====
-- What each method of src/module/auction/auction.service.ts writes to the auctions, however it ends.
use zombiies_api.Common.{
  ℕ, ◌<◌, ◌≡◌, refl, ap, ◌∙◌, ◌⊎◌, inl, inr, true, false, ◌||◌, Option, none, some, leb, ◌==◌,
  Result, ok, err, Error, Action, and_then, recover, lift, or_throw, type_error, arith, Bool-cases,
  Option-cases, Result-cases, find_by_id, update_one,
}
use zombiies_api.Ether
use zombiies_api.Ether.{Receipt}
use zombiies_api.Auction.Model.{
  Auction, has_higher_bid, received_token, received_eth, ended_with_no_bid,
}
use zombiies_api.Auction.Service.{
  pay, push, refund, bid, outbid, write, find_auction, on_chain, place, settle, end_auction,
  start_auction, new_auction, save_auction, move_token, received,
}
use zombiies_api.Auction.Env.{AuctionEnv, World, bid_to_beat}
use zombiies_api.Auction.Service.Effects.{push-keeps}

and_then-keeps :
    {S A B X : Type 0} (g : S → X) (m : Result A × S) (f : A → Action S B)
    → ((a : A) (s : S) → g (f a s).1 ≡ g s)
    → g (and_then m f).1 ≡ g m.1
and_then-keeps g (err x, s) f h = refl
and_then-keeps g (ok a, s) f h = h a s

recover-keeps :
    {S A X : Type 0} (g : S → X) (m : Result A × S) (f : Error → Action S A)
    → ((x : Error) (s : S) → g (f x s).1 ≡ g s)
    → g (recover m f).1 ≡ g m.1
recover-keeps g (err x, s) f h = h x s
recover-keeps g (ok a, s) f h = refl

module _ {S N Q C : Type 0} (env : AuctionEnv S N Q C) where
  open env use {auction_model, chain, wallet_of, owner_wallet, parse_ether, format_ether}

  abbrev auctions_of : World S N Q C → S
  auctions_of w = w.auctions

  refund-keeps :
      (a : Auction) (address value : ℕ) (w : World S N Q C)
      → (refund env a address value w).1.auctions ≡ w.auctions
  unfolding refund
  refund-keeps a address value w = elim (Option-cases a.latest_bid) [
    | inl n ↦ rw n refl
    | inr (latest, n) ↦ rw n (
        recover-keeps auctions_of _ _
          (λ x v. and_then-keeps auctions_of (pay env owner_wallet address value v) _ (λ r u. refl))
        ∙ and_then-keeps auctions_of (or_throw a.latest_bidder_address type_error, w) _
            (λ to v.
              and_then-keeps auctions_of (pay env owner_wallet to (parse_ether latest) v) _
                (λ r u. (push-keeps env a.latest_bidder (has_higher_bid a.id latest) u).0)))
  ]

  -- A write leaves the auctions or makes the change.
  write-cases :
      (f : S → S) (w : World S N Q C)
      → ((x : Error) × (write env f w ≡ (err x, w)))
        ⊎ (write env f w ≡ (ok tt, record w { auctions = f w.auctions }))
  write-cases f w = elim (Option-cases (env.refuses w.auctions)) [
    | inl n ↦ rw n (inr refl)
    | inr (x, n) ↦ rw n (inl (x, refl))
  ]

  abbrev pub Outbid : ℕ → ℕ → Auction → ℕ → S → S → Type 0
  Outbid now bidder a value before after =
      (hash : ℕ) × (after
        ≡ update_one auction_model a.id (outbid env a bidder now value hash) before)

  place-auctions :
      (now bidder : ℕ) (a : Auction) (value : ℕ) (w : World S N Q C)
      → let v = (place env now bidder a value w).1 in
        (v.auctions ≡ w.auctions) ⊎ Outbid now bidder a value w.auctions v.auctions
  unfolding place
  place-auctions now bidder a value w =
      let paid = pay env (wallet_of bidder) owner_wallet value w in
      let undo = λ (x : Error) (v : World S N Q C).
        on_chain env (chain.send_transaction owner_wallet (wallet_of bidder) value) v in
      let undone = λ (x : Error) (v : World S N Q C).
        and_then-keeps auctions_of (and_then (undo x v) (λ _. lift {A = Unit {0}} (err x)))
          (λ _. find_auction env a.id) (λ _ _. refl)
        ∙ and_then-keeps auctions_of (undo x v) (λ _. lift {A = Unit {0}} (err x)) (λ _ _. refl) in
      elim (Result-cases paid.0) [
        | inr (x, p) ↦ rw (p, and_then) (inl refl)
        | inl (receipt, p) ↦
            let kept = refund-keeps a (wallet_of bidder) value paid.1 in
            let back = refund env a (wallet_of bidder) value paid.1 in
            elim (Result-cases back.0) [
              | inr (x, r) ↦ rw (p, and_then) (rw (r, and_then) (inl kept))
              | inl (done, r) ↦
                  elim (write-cases
                    (update_one auction_model a.id
                      (outbid env a bidder now value receipt.transaction_hash))
                    back.1) [
                      | inl (x, e) ↦
                          rw (p, and_then) (rw (r, and_then) (rw e (inl (undone x back.1 ∙ kept))))
                      | inr e ↦
                          rw (p, and_then)
                            (rw (r, and_then)
                              (rw e (
                                inr (
                                  receipt.transaction_hash,
                                  ap (update_one auction_model a.id _) kept,
                                ))))
                    ]
            ]
      ]

  -- What a call of `bid` does to the auctions: nothing, or the write of a higher bid to an auction
  -- that is not over.
  abbrev pub Raised : ℕ → ℕ → ℕ → ℕ → World S N Q C → S → Type 0
  Raised now bidder id value w after =
      (a : Auction) × (find_by_id auction_model id w.auctions ≡ some a)
      × (a.is_ended ≡ false)
      × (parse_ether (bid_to_beat a) < value)
      × Outbid now bidder a value w.auctions after

  pub bid-auctions :
      (now bidder id value : ℕ) (w : World S N Q C)
      → let v = (bid env now bidder id value w).1 in
        (v.auctions ≡ w.auctions) ⊎ Raised now bidder id value w v.auctions
  unfolding bid
  bid-auctions now bidder id value w =
      elim (Option-cases (find_by_id auction_model id w.auctions)) [
        | inl n ↦ rw n (inl refl)
        | inr (a, f) ↦ elim (Bool-cases (a.is_ended || env.is_after now a.end_at)) [
          | inl over ↦ rw f (rw over (inl refl))
          | inr open_still ↦ elim (Bool-cases (leb value (parse_ether (bid_to_beat a)))) [
            | inl low ↦ rw f (rw (open_still, low) (inl refl))
            | inr high ↦ elim (place-auctions now bidder a value w) [
              | inl same ↦ rw f (rw (open_still, high) (inl same))
              | inr written ↦ rw f (
                  rw (open_still, high)
                    (inr (a, refl, ground (arith, open_still), ground (arith, high), written)))
            ]
          ]
        ]
      ]

  settle-keeps :
      (id : ℕ) (a : Auction) (latest : Option ℕ) (w : World S N Q C)
      → (settle env id a latest w).1.auctions ≡ w.auctions
  unfolding settle
  settle-keeps id a none w =
      and_then-keeps auctions_of
        (move_token env owner_wallet owner_wallet a.seller_address (env.big_number_from a.token_id)
          w)
        _ (λ r v. (push-keeps env (some a.seller) (ended_with_no_bid id) v).0)
  settle-keeps id a (some latest) w =
      let amount = received env (parse_ether latest) in
      and_then-keeps auctions_of (pay env owner_wallet a.seller_address amount w) _ (λ r v.
        and_then-keeps auctions_of (or_throw a.latest_bidder_address type_error, v) _
          (λ to v₁.
            and_then-keeps auctions_of
              (move_token env owner_wallet owner_wallet to (env.big_number_from a.token_id) v₁) _
              (λ r₂ v₂.
                and_then-keeps auctions_of
                  (push env a.latest_bidder (received_token id a.token_id) v₂) _
                  (λ _ v₃.
                    (push-keeps env (some a.seller) (received_eth id (env.to_text amount)) v₃).0)
                ∙ (push-keeps env a.latest_bidder (received_token id a.token_id) v₂).0)))

  abbrev pub ended : Auction → Auction
  ended a = record a { is_ended = true }

  pub end_auction-auctions :
      (id : ℕ) (w : World S N Q C)
      → let v = (end_auction env id w).1 in
        (v.auctions ≡ w.auctions) ⊎ (v.auctions ≡ update_one auction_model id ended w.auctions)
  unfolding end_auction
  end_auction-auctions id w = elim (Option-cases (find_by_id auction_model id w.auctions)) [
    | inl n ↦ rw n (inl refl)
    | inr (a, f) ↦
        let settled = settle env id a a.latest_bid w in
        let kept = settle-keeps id a a.latest_bid w in
        elim (Result-cases settled.0) [
          | inr (x, e) ↦ rw f (rw (e, and_then) (inl kept))
          | inl (done, e) ↦ elim (write-cases (update_one auction_model id ended) settled.1) [
            | inl (x, r) ↦ rw f (rw (e, and_then) (rw r (inl kept)))
            | inr r ↦
                rw f (rw (e, and_then) (rw r (inr (ap (update_one auction_model id ended) kept))))
          ]
        ]
  ]

  save_auction-auctions :
      (f : ℕ → Auction) (w : World S N Q C)
      → let out = save_auction env f w in
        (out.1.auctions ≡ w.auctions) ⊎ (out.1.auctions ≡ auction_model.create f w.auctions)
  save_auction-auctions f w =
      let id = auction_model.new_id w.auctions in
      elim (Option-cases (auction_model.find_one (λ b. b.token_id == (f id).token_id) w.auctions)) [
        | inr (b, e) ↦ rw e (inl refl)
        | inl n ↦ elim (write-cases (auction_model.create f) w) [
          | inl (x, r) ↦ rw n (rw r (inl refl))
          | inr r ↦ rw n (rw r (inr refl))
        ]
      ]

  pub start_auction-auctions :
      (now seller token start_bid : ℕ) (w : World S N Q C)
      → let v = (start_auction env now seller token start_bid w).1 in
        (v.auctions ≡ w.auctions)
        ⊎ ((f : ℕ → Auction) × (v.auctions ≡ auction_model.create f w.auctions))
  unfolding start_auction
  start_auction-auctions now seller token start_bid w =
      let asked = on_chain env (Ether.is_owner_of chain (wallet_of seller) token) w in
      elim (Result-cases asked.0) [
        | inr (x, o) ↦ rw (o, and_then) (inl refl)
        | inl (owns, o) ↦ elim (Bool-cases owns) [
          | inr strange ↦ rw (o, and_then) (rw strange (inl refl))
          | inl mine ↦
              let moved =
                move_token env (wallet_of seller) (wallet_of seller) owner_wallet token asked.1 in
              elim (Result-cases moved.0) [
                | inr (x, m) ↦ rw (o, and_then) (rw mine (rw (m, and_then) (inl refl)))
                | inl (receipt, m) ↦
                    let f = new_auction env seller token start_bid now receipt.transaction_hash in
                    let kept =
                      recover-keeps auctions_of (and_then (save_auction env f moved.1) _) _ (λ x v.
                        and_then-keeps auctions_of
                          (move_token env owner_wallet owner_wallet (wallet_of seller) token v) _
                          (λ _ _. refl))
                      ∙ and_then-keeps auctions_of (save_auction env f moved.1) _ (λ a v. refl) in
                    rw (o, and_then)
                      (rw mine (
                        rw (m, and_then)
                          (elim (save_auction-auctions f moved.1) [
                            | inl same ↦ inl (kept ∙ same)
                            | inr new ↦ inr (f, kept ∙ new)
                          ])))
              ]
        ]
      ]
