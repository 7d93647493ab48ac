-- ===== src/Auction/Service/Rising.antt =====
-- What becomes of an auction under any calls of src/module/auction/auction.service.ts.
use zombiies_api.Common.{
  ℕ, ◌≡◌, refl, sym, ap, ◌∙◌, subst, inl, inr, true, some, List, [], ◌∷◌, ◌==◌, find, find-append,
  find_holds, arith, Bool-cases, and_then-lift, find_by_id, update_one, find_by_id-update_one,
}
use zombiies_api.Auction.Model.{Auction}
use zombiies_api.Auction.Service.{bid, outbid, end_auction, end_auction_job, start_auction}
use zombiies_api.Auction.Env.{AuctionEnv, World}
use zombiies_api.Auction.Service.Writes.{
  ended, bid-auctions, end_auction-auctions, start_auction-auctions,
}
use zombiies_api.Auction.Service.Growing.{Grows, Grows-refl, Grows-trans, outbid-Grows, ended-Grows}

some-injective : {A : Type 0} {a b : A} → some a ≡ some b → a ≡ b
some-injective e = cc

-- A call of the auction service, by a user or by its queue; `now` is the time of the call.
pub data Call : Type 0 where
  starts : (now seller token start_bid : ℕ) → Call
  bids : (now bidder id value : ℕ) → Call
  ends : (id : ℕ) → Call

module _ {S N Q C : Type 0} (env : AuctionEnv S N Q C) where
  open env use {auction_model, parse_ether, format_ether}

  -- The state after a call, with or without an exception.
  unfoldable pub after_call : Call → World S N Q C → World S N Q C
  after_call (starts now seller token start_bid) w =
      (start_auction env now seller token start_bid w).1
  after_call (bids now bidder id value) w = (bid env now bidder id value w).1
  after_call (ends id) w = (end_auction_job env id w).1

  unfoldable pub after_calls : List Call → World S N Q C → World S N Q C
  unfolding after_call
  after_calls [] w = w
  after_calls (c ∷ cs) w = after_calls cs (after_call c w)

  -- The auction of an id, in a later state of it.
  abbrev Follows : ℕ → Auction → S → Type 0
  Follows id a s = (b : Auction) × (find_by_id auction_model id s ≡ some b) × Grows env a b

  update-Follows :
      (id changed : ℕ) (f : Auction → Auction) (a : Auction) (s : S)
      → ((x : Auction) → (f x).id ≡ x.id)
      → find_by_id auction_model id s ≡ some a
      → (changed ≡ id → Grows env a (f a))
      → Follows id a (update_one auction_model changed f s)
  update-Follows id changed f a s same e g =
      let kept = λ (x : Auction). env.id_lem (f x) ∙ same x ∙ sym (env.id_lem x) in
      let law = find_by_id-update_one auction_model changed id f s kept in
      elim (Bool-cases (changed == id)) [
        | inl here ↦ (f a, law ∙ rw (here, e) refl, g (ground (arith, here)))
        | inr other ↦ (a, law ∙ rw (other, e) refl, Grows-refl env a)
      ]

  create-Follows :
      (id : ℕ) (f : ℕ → Auction) (a : Auction) (s : S)
      → find_by_id auction_model id s ≡ some a
      → Follows id a (auction_model.create f s)
  create-Follows id f a s e =
      let here : find (λ d. auction_model.id d == id) (auction_model.docs s) ≡ some a =
        sym (auction_model.find_one_lem _ s) ∙ e in
      (
        a,
        auction_model.find_one_lem _ _
            ∙ ap (find (λ d. auction_model.id d == id)) (auction_model.create_lem f s)
            ∙ find-append (λ d. auction_model.id d == id) (auction_model.docs s) _
            ∙ rw here refl,
        Grows-refl env a,
      )

  -- The auction that a method has read is the one of its id.
  same_found :
      (changed id : ℕ) (read a : Auction) (s : S)
      → find_by_id auction_model changed s ≡ some read
      → find_by_id auction_model id s ≡ some a
      → read.id ≡ id
      → read ≡ a
  same_found changed id read a s found e here =
      let key : auction_model.id read == changed ≡ true =
        find_holds (λ d. auction_model.id d == changed) (auction_model.docs s)
          (sym (auction_model.find_one_lem _ s) ∙ found) in
      let same : changed ≡ id = ground (arith, key, env.id_lem read, here) in
      some-injective (sym found ∙ ap (λ i. find_by_id auction_model i s) same ∙ e)

  after_call-Follows :
      (c : Call) (id : ℕ) (a : Auction) (w : World S N Q C)
      → find_by_id auction_model id w.auctions ≡ some a
      → Follows id a (after_call c w).auctions
  unfolding after_call end_auction_job
  after_call-Follows (starts now seller token start_bid) id a w e =
      elim (start_auction-auctions env now seller token start_bid w) [
        | inl same ↦ rw same (a, e, Grows-refl env a)
        | inr (f, new) ↦ rw new (create-Follows id f a w.auctions e)
      ]
  after_call-Follows (bids now bidder changed value) id a w e =
      elim (bid-auctions env now bidder changed value w) [
        | inl same ↦ rw same (a, e, Grows-refl env a)
        | inr (read, found, open_still, less, (hash, written)) ↦ rw written (
            update-Follows id read.id (outbid env read bidder now value hash) a w.auctions
              (λ x. refl) e
              (λ here.
                let same = same_found changed id read a w.auctions found e here in
                subst (λ x. Grows env x (outbid env read bidder now value hash x)) same
                  (outbid-Grows env read bidder now value hash open_still less)))
      ]
  after_call-Follows (ends changed) id a w e =
      rw (and_then-lift (end_auction env changed w) tt) (elim (end_auction-auctions env changed w) [
        | inl same ↦ rw same (a, e, Grows-refl env a)
        | inr written ↦ rw written (
            update-Follows id changed (ended env) a w.auctions (λ x. refl) e
              (λ _. ended-Grows env a))
      ])

  -- Whatever calls come, and whatever exceptions end them, a stored auction stays stored, with the
  -- same token, seller, first bid and dates; the bid to beat never falls, the history of bids only
  -- gets longer, and an auction that is over stays over with the bidder and the bid that it has.
  pub after_calls-Grows :
      (cs : List Call) (id : ℕ) (a : Auction) (w : World S N Q C)
      → find_by_id auction_model id w.auctions ≡ some a
      → (b : Auction) × (find_by_id auction_model id (after_calls cs w).auctions ≡ some b)
        × Grows env a b
  unfolding after_calls
  after_calls-Grows [] id a w e = (a, e, Grows-refl env a)
  after_calls-Grows (c ∷ cs) id a w e =
      let (b, f, g) = after_call-Follows c id a w e in
      let (d, h, k) = after_calls-Grows cs id b (after_call c w) f in
      (d, h, Grows-trans env a b d g k)
