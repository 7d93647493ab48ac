-- ===== src/Auction/Service/Ending.antt =====
-- The payments of `endAuction` of src/module/auction/auction.service.ts.
use zombiies_api.Common.{
  ℕ, ◌+◌, ◌/◌, ◌≡◌, sym, ap, ◌∙◌, true, Option, some, List, [], ◌∷◌, ◌++◌, ok, arith, find_by_id,
  update_one, and_then-ok, ok-injective, or_throw, type_error,
}
use mathlib.Core.List.{append_assoc}
use zombiies_api.Ether.{Transfer, paid, moved}
use zombiies_api.Auction.Model.{Auction, received_token, received_eth}
use zombiies_api.Auction.Service.{pay, push, received, settle, end_auction, move_token, write}
use zombiies_api.Auction.Env.{AuctionEnv, World}
use zombiies_api.Auction.Service.Effects.{paid_so_far, pay-ok, push-keeps, move-ok, written-ok}

module _ {S N Q C : Type 0} (env : AuctionEnv S N Q C) where
  open env use {auction_model, chain, wallet_of, owner_wallet, parse_ether}

  abbrev settled : Auction → ℕ → ℕ → List Transfer
  settled a latest to =
      paid owner_wallet a.seller_address (received env (parse_ether latest))
      ∷ moved owner_wallet to (env.big_number_from a.token_id)
      ∷ []

  settle-ok :
      (id latest to : ℕ) (a : Auction) (w : World S N Q C)
      → a.latest_bidder_address ≡ some to
      → (settle env id a (some latest) w).0 ≡ ok tt
      → (paid_so_far env (settle env id a (some latest) w).1
          ≡ paid_so_far env w ++ settled a latest to)
        × ((settle env id a (some latest) w).1.auctions ≡ w.auctions)
  unfolding settle
  settle-ok id latest to a w b e =
      let amount = received env (parse_ether latest) in
      let payment = pay env owner_wallet a.seller_address amount w in
      let token = env.big_number_from a.token_id in
      let (h, p, same₁) = and_then-ok payment _ e in
      let e₁ = ap (λ z. z.0) (sym same₁) ∙ e in
      let (to₂, q, same₂) =
        and_then-ok (or_throw a.latest_bidder_address type_error, payment.1) _ e₁ in
      let e₂ = ap (λ z. z.0) (sym same₂) ∙ e₁ in
      let sent = move_token env owner_wallet owner_wallet to₂ token payment.1 in
      let (h₂, r, same₃) = and_then-ok sent _ e₂ in
      let e₃ = ap (λ z. z.0) (sym same₃) ∙ e₂ in
      let told = push env a.latest_bidder (received_token id a.token_id) sent.1 in
      let (done, t, same₄) = and_then-ok told _ e₃ in
      let first = push-keeps env a.latest_bidder (received_token id a.token_id) sent.1 in
      let second = push-keeps env (some a.seller) (received_eth id (env.to_text amount)) told.1 in
      let after = ap (λ z. z.1) (same₁ ∙ same₂ ∙ same₃ ∙ same₄) in
      let who : to₂ ≡ to = ok-injective (sym q ∙ ap (λ x. or_throw x type_error) b) in
      (
        ap (paid_so_far env) after
            ∙ ap chain.history (second.1 ∙ first.1)
            ∙ move-ok env owner_wallet to₂ token h₂ payment.1 r
            ∙ ap (λ x. paid_so_far env payment.1 ++ moved owner_wallet x token ∷ []) who
            ∙ ap (λ ts. ts ++ moved owner_wallet to token ∷ [])
                (pay-ok env owner_wallet a.seller_address amount h w p)
            ∙ append_assoc (paid_so_far env w) (paid owner_wallet a.seller_address amount ∷ [])
                (moved owner_wallet to token ∷ []),
        ap (λ v. v.auctions) after ∙ second.0 ∙ first.0,
      )

  -- Of a bid the seller receives what is left after a fifth of it, rounded down, is kept.
  pub end_auction-pays :
      (id latest to : ℕ) (a : Auction) (o : Option Auction) (w : World S N Q C)
      → find_by_id auction_model id w.auctions ≡ some a
      → a.latest_bid ≡ some latest
      → a.latest_bidder_address ≡ some to
      → (end_auction env id w).0 ≡ ok o
      → let v = (end_auction env id w).1 in
        (paid_so_far env v
          ≡ paid_so_far env w
            ++ paid owner_wallet a.seller_address (received env (parse_ether latest))
              ∷ moved owner_wallet to (env.big_number_from a.token_id)
              ∷ [])
        × (received env (parse_ether latest) + parse_ether latest / 5 ≡ parse_ether latest)
        × (v.auctions ≡ update_one auction_model id (λ d. record d { is_ended = true }) w.auctions)
  unfolding end_auction
  end_auction-pays id latest to a o w f l b = rw f (
      rw l λ e.
        let (done, p, same₁) = and_then-ok (settle env id a (some latest) w) _ e in
        let e₁ = ap (λ z. z.0) (sym same₁) ∙ e in
        let ended = update_one auction_model id (λ d. record d { is_ended = true }) in
        let paid_out = settle env id a (some latest) w in
        let (done₂, q, same₂) = and_then-ok (write env ended paid_out.1) _ e₁ in
        let wrote = written-ok env ended paid_out.1 q in
        let money = settle-ok id latest to a w b p in
        let after = ap (λ z. z.1) (same₁ ∙ same₂) ∙ wrote in
        (
          ap (paid_so_far env) after ∙ money.0,
          omega arith,
          ap (λ v. v.auctions) after ∙ ap ended money.1,
        ))
