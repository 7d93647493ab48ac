-- ===== src/Auction/Service/Effects.antt =====
-- What each step of the methods of src/module/auction/auction.service.ts does to the chain and to the
-- auctions.
use zombiies_api.Common.{
  ℕ, ◌≡◌, refl, ◌∙◌, inl, inr, Option, none, some, List, [], ◌∷◌, ◌++◌, ok, Option-cases,
}
use zombiies_api.Ether.{Transfer, paid, moved, Receipt}
use zombiies_api.Auction.Model.{Content}
use zombiies_api.Auction.Service.{pay, push, move_token, write}
use zombiies_api.Auction.Env.{AuctionEnv, World}

module _ {S N Q C : Type 0} (env : AuctionEnv S N Q C) where
  open env use {auction_model, chain, wallet_of, owner_wallet, parse_ether}

  abbrev pub paid_so_far : World S N Q C → List Transfer
  paid_so_far w = chain.history w.chain_state

  -- A mined payment is added to what was paid, whatever else the world holds.
  pub pay-ok :
      (from to value : ℕ) (receipt : Receipt) (w : World S N Q C)
      → (pay env from to value w).0 ≡ ok receipt
      → paid_so_far (pay env from to value w).1 ≡ paid_so_far w ++ paid from to value ∷ []
  pay-ok from to value receipt w e = chain.paid_lem from to value w.chain_state ∙ rw e refl

  pub push-keeps :
      (user : Option ℕ) (content : Content) (w : World S N Q C)
      → ((push env user content w).1.auctions ≡ w.auctions)
        × ((push env user content w).1.chain_state ≡ w.chain_state)
  unfolding push
  push-keeps none content w = (refl, refl)
  push-keeps (some user) content w = (refl, refl)

  pub move-ok :
      (from to token : ℕ) (receipt : Receipt) (w : World S N Q C)
      → (move_token env owner_wallet from to token w).0 ≡ ok receipt
      → paid_so_far (move_token env owner_wallet from to token w).1
        ≡ paid_so_far w ++ moved from to token ∷ []
  move-ok from to token receipt w e =
      chain.moved_lem owner_wallet from to token w.chain_state ∙ rw e refl

  pub written-ok :
      (f : S → S) (w : World S N Q C)
      → (write env f w).0 ≡ ok tt
      → (write env f w).1 ≡ record w { auctions = f w.auctions }
  written-ok f w = elim (Option-cases (env.refuses w.auctions)) [
    | inl n ↦ rw n (λ e. refl)
    | inr (x, n) ↦ rw n (λ e. cc)
  ]
