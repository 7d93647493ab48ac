-- ===== src/Auction/Service/Bids.antt =====
-- The payments of `bid` of src/module/auction/auction.service.ts.
use zombiies_api.Common.{
  ℕ, ◌≤◌, ◌<◌, ◌≡◌, refl, sym, ap, ◌∙◌, inl, inr, true, false, ◌||◌, Option, none, some, List, [],
  ◌∷◌, ◌++◌, leb, ok, err, Error, bad_request, not_found, arith, Bool-cases, Option-cases,
  Result-cases, find_by_id, update_one, and_then, and_then-ok, recover-ok, recover, Result,
  ok-injective, or_throw, type_error, lift, IsKeyed, find_by_id-update_self, find_one-IsKeyed,
}
use mathlib.Core.List.{append-nil, append_assoc}
use zombiies_api.Ether.{Transfer, paid, Receipt}
use zombiies_api.Auction.Model.{Auction, has_higher_bid}
use zombiies_api.Auction.Service.{
  pay, push, refund, bid, outbid, write, find_auction, on_chain, AuctionAction, place,
}
use zombiies_api.Auction.Env.{AuctionEnv, World, bid_to_beat}
use zombiies_api.Auction.Service.Effects.{paid_so_far, pay-ok, push-keeps, written-ok}

module _ {S N Q C : Type 0} (env : AuctionEnv S N Q C) where
  open env use {auction_model, chain, wallet_of, owner_wallet, parse_ether}

  -- What the old bidder gets back.
  abbrev pub refunds : Auction → List Transfer
  refunds a = elim a.latest_bid [
    | none ↦ []
    | some latest ↦ elim a.latest_bidder_address [
      | none ↦ []
      | some to ↦ paid owner_wallet to (parse_ether latest) ∷ []
    ]
  ]

  -- A bid on an auction that is missing or over, or that does not exceed the bid to beat, is refused,
  -- and neither money nor the auction moves.
  pub bid_refused :
      (now bidder id current_bid : ℕ) (w : World S N Q C)
      → let (r, v) = bid env now bidder id current_bid w in
        let found = find_by_id auction_model id w.auctions in
        (found ≡ none → (r ≡ err (not_found "Auction not found")) × (v ≡ w))
        × ((a : Auction)
            → found ≡ some a
            → (a.is_ended || env.is_after now a.end_at) ≡ true
            → (r ≡ err (bad_request "Auction has ended")) × (v ≡ w))
        × ((a : Auction)
            → found ≡ some a
            → (a.is_ended || env.is_after now a.end_at) ≡ false
            → current_bid ≤ parse_ether (bid_to_beat a)
            → (r ≡ err (bad_request "New bid must be greater than old bid")) × (v ≡ w))
  unfolding bid
  bid_refused now bidder id current_bid w = (
    (λ n. rw n (refl, refl)),
    (λ a f e. rw f (rw e (refl, refl))),
    λ a f e l.
        let low : leb current_bid (parse_ether (bid_to_beat a)) ≡ true = ground (arith, l) in
        rw f (rw (e, low) (refl, refl)),
  )

  -- The refund itself, before anything is caught.
  abbrev give_back : Auction → ℕ → World S N Q C → Result (Unit {0}) × World S N Q C
  give_back a latest w =
      and_then (or_throw a.latest_bidder_address type_error, w)
        λ to v.
          and_then (pay env owner_wallet to (parse_ether latest) v)
            λ _. push env a.latest_bidder (has_higher_bid a.id latest)

  give_back-ok :
      (a : Auction) (latest : ℕ) (w : World S N Q C)
      → (give_back a latest w).0 ≡ ok tt
      → (paid_so_far env (give_back a latest w).1
          ≡ paid_so_far env w ++ elim a.latest_bidder_address [
            | none ↦ []
            | some to ↦ paid owner_wallet to (parse_ether latest) ∷ []
          ])
        × ((give_back a latest w).1.auctions ≡ w.auctions)
  give_back-ok a latest w = elim (Option-cases a.latest_bidder_address) [
    | inl n ↦ rw n (λ e. cc)
    | inr (to, n) ↦ elim (Result-cases (pay env owner_wallet to (parse_ether latest) w).0) [
      | inr (x, p) ↦ rw n (rw p (λ e. cc))
      | inl (hash, p) ↦
          let kept =
            push-keeps env a.latest_bidder (has_higher_bid a.id latest)
              (pay env owner_wallet to (parse_ether latest) w).1 in
          rw n (
            rw p (λ e. (
              ap chain.history kept.1 ∙ pay-ok env owner_wallet to (parse_ether latest) hash w p,
              kept.0,
            )))
    ]
  ]

  pub refund-ok :
      (a : Auction) (address current_bid : ℕ) (w : World S N Q C)
      → (refund env a address current_bid w).0 ≡ ok tt
      → (paid_so_far env (refund env a address current_bid w).1 ≡ paid_so_far env w ++ refunds a)
        × ((refund env a address current_bid w).1.auctions ≡ w.auctions)
  unfolding refund
  refund-ok a address current_bid w = elim (Option-cases a.latest_bid) [
    | inl n ↦ rw n (λ e. (sym (append-nil (paid_so_far env w)), refl))
    | inr (latest, n) ↦ rw n (λ e.
        let caught =
          recover-ok (give_back a latest w) (λ _. pay env owner_wallet address current_bid) e in
        let back = give_back-ok a latest w caught.0 in
        (ap (paid_so_far env) caught.1 ∙ back.0, ap (λ v. v.auctions) caught.1 ∙ back.1))
  ]

  -- The write, when the database takes it.
  write-ok :
      (f : S → S) (undo : Error → AuctionAction env ℕ) (w : World S N Q C)
      → (recover (write env f w) (λ x t. and_then (undo x t) (λ _. lift (err x)))).0 ≡ ok tt
      → (recover (write env f w) (λ x t. and_then (undo x t) (λ _. lift (err x)))).1
        ≡ record w { auctions = f w.auctions }
  write-ok f undo w e =
      let caught = recover-ok (write env f w) undo e in caught.1 ∙ written-ok env f w caught.0

  -- The write and the read that end `place`.
  abbrev finish :
      (S → S)
      → (Error → AuctionAction env ℕ)
      → ℕ
      → World S N Q C
      → Result (Option Auction) × World S N Q C
  finish f undo id w =
      and_then (recover (write env f w) (λ x t. and_then (undo x t) (λ _. lift (err x))))
        (λ _. find_auction env id)

  finish-ok :
      (f : S → S) (undo : Error → AuctionAction env ℕ) (id : ℕ) (o : Option Auction)
      (w : World S N Q C)
      → (finish f undo id w).0 ≡ ok o
      → ((finish f undo id w).1 ≡ record w { auctions = f w.auctions })
        × (o ≡ find_by_id auction_model id (f w.auctions))
  finish-ok f undo id o w e =
      let (done, r, same) =
        and_then-ok (recover (write env f w) (λ x t. and_then (undo x t) (λ _. lift (err x))))
          (λ _. find_auction env id) e in
      let wrote = write-ok f undo w r in
      (
        ap (λ z. z.1) same ∙ wrote,
        ok-injective (sym e ∙ ap (λ z. z.0) same)
            ∙ ap (λ v. find_by_id auction_model id v.auctions) wrote,
      )

  place-ok :
      (now bidder current_bid : ℕ) (a : Auction) (o : Option Auction) (w : World S N Q C)
      → (place env now bidder a current_bid w).0 ≡ ok o
      → let v = (place env now bidder a current_bid w).1 in
        (hash : ℕ) × (paid_so_far env v
          ≡ paid_so_far env w ++ paid (wallet_of bidder) owner_wallet current_bid ∷ refunds a)
        × (v.auctions
            ≡ update_one auction_model a.id (outbid env a bidder now current_bid hash) w.auctions)
        × (o ≡ find_by_id auction_model a.id v.auctions)
  unfolding place
  place-ok now bidder current_bid a o w e =
      let payment = pay env (wallet_of bidder) owner_wallet current_bid w in
      let back = refund env a (wallet_of bidder) current_bid payment.1 in
      let written =
        λ (hash : ℕ). update_one auction_model a.id (outbid env a bidder now current_bid hash) in
      let undo = λ (x : Error).
        on_chain env (chain.send_transaction owner_wallet (wallet_of bidder) current_bid) in
      let (receipt, p, same₁) =
        and_then-ok payment
          (λ (h : Receipt) v.
            and_then (refund env a (wallet_of bidder) current_bid v)
              (λ _. finish (written h.transaction_hash) undo a.id))
          e in
      let e₁ = ap (λ z. z.0) (sym same₁) ∙ e in
      let (done, b, same₂) =
        and_then-ok back (λ _. finish (written receipt.transaction_hash) undo a.id) e₁ in
      let e₂ = ap (λ z. z.0) (sym same₂) ∙ e₁ in
      let given = refund-ok a (wallet_of bidder) current_bid payment.1 b in
      let last = finish-ok (written receipt.transaction_hash) undo a.id o back.1 e₂ in
      let after = ap (λ z. z.1) (same₁ ∙ same₂) ∙ last.0 in
      (
        receipt.transaction_hash,
        ap (paid_so_far env) after
            ∙ given.0
            ∙ ap (λ ts. ts ++ refunds a)
                (pay-ok env (wallet_of bidder) owner_wallet current_bid receipt w p)
            ∙ append_assoc (paid_so_far env w)
                (paid (wallet_of bidder) owner_wallet current_bid ∷ []) (refunds a),
        ap (λ v. v.auctions) after ∙ ap (written receipt.transaction_hash) given.1,
        last.1 ∙ ap (λ v. find_by_id auction_model a.id v.auctions) (sym after),
      )

  -- An accepted bid was due: the auction was open and the bid exceeds the one to beat. The bidder
  -- has paid it, the old bidder has the old bid back, and nothing else was paid; the stored auction
  -- names the new bidder, with the old bid at the end of its history.
  pub bid-ok :
      (now bidder id current_bid : ℕ) (o : Option Auction) (w : World S N Q C)
      → IsKeyed auction_model w.auctions
      → (bid env now bidder id current_bid w).0 ≡ ok o
      → let v = (bid env now bidder id current_bid w).1 in
        (a : Auction) × (hash : ℕ) × (find_by_id auction_model id w.auctions ≡ some a)
        × ((a.is_ended || env.is_after now a.end_at) ≡ false)
        × (parse_ether (bid_to_beat a) < current_bid)
        × (paid_so_far env v
            ≡ paid_so_far env w ++ paid (wallet_of bidder) owner_wallet current_bid ∷ refunds a)
        × (v.auctions
            ≡ update_one auction_model a.id (outbid env a bidder now current_bid hash) w.auctions)
        × (o ≡ some (outbid env a bidder now current_bid hash a))
  unfolding bid
  bid-ok now bidder id current_bid o w k =
      elim (Option-cases (find_by_id auction_model id w.auctions)) [
        | inl n ↦ rw n (λ e. cc)
        | inr (a, f) ↦ elim (Bool-cases (a.is_ended || env.is_after now a.end_at)) [
          | inl over ↦ rw f (rw over (λ e. cc))
          | inr still_open ↦ elim (Bool-cases (leb current_bid (parse_ether (bid_to_beat a)))) [
            | inl low ↦ rw f (rw (still_open, low) (λ e. cc))
            | inr high ↦ rw f (
                rw (still_open, high)
                  (λ e.
                    let placed = place-ok now bidder current_bid a o w e in
                    let key : find_by_id auction_model a.id w.auctions ≡ some a =
                      rw (env.id_lem a) at (find_one-IsKeyed auction_model _ w.auctions k f) in
                    let update = outbid env a bidder now current_bid placed.0 in
                    let keeps = λ (d : Auction). env.id_lem (update d) ∙ sym (env.id_lem d) in
                    (
                      a,
                      placed.0,
                      refl,
                      still_open,
                      ground (arith, high),
                      placed.1,
                      placed.2,
                      placed.3
                          ∙ ap (find_by_id auction_model a.id) placed.2
                          ∙ find_by_id-update_self auction_model a.id update w.auctions a keeps key,
                    )))
          ]
        ]
      ]
