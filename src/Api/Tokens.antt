-- ===== src/Api/Tokens.antt =====
-- src/module/card/card.resolver.ts and src/module/auction/auction.resolver.ts behind the guard.
use zombiies_api.Common.{ℕ, Option, some, none, List, map, Result, ok, err, lift}
use zombiies_api.Common.Async.{◌>>=◌}
use zombiies_api.User.Model.{User}
use zombiies_api.Card.Model.{CardTokenModel, CardType}
use zombiies_api.Card.Schema.{Card}
use zombiies_api.Card.Service as CardService
use zombiies_api.Card.Service.{
  CardEnv, CardAction, get_all_card, get_mint_fee, get_card_tokens_of_user, find_one_card_token,
}
use zombiies_api.Card.Mint.{Running, mint}
use zombiies_api.Auction.Model.{Auction}
use zombiies_api.Auction.Service as AuctionService
use zombiies_api.Auction.Service.{AuctionAction}
use zombiies_api.Auction.Env.{AuctionEnv}
use zombiies_api.Api.{guarded}

module _ {S U C : Type 0} (env : CardEnv S U C) (format_ether big_number_from : ℕ → ℕ)
    (current_user : Result User) where
  abbrev pub all_cards : CardAction env (List Card)
  all_cards = get_all_card env

  abbrev pub get_pack_fee : CardAction env ℕ
  get_pack_fee = do fee ← get_mint_fee env; lift (ok (format_ether fee))

  abbrev pub buy_token :
      ℕ
      → CardType
      → CardService.World S U C
      → Running (CardService.World S U C) (Option CardTokenModel)
  buy_token fuel type w = elim current_user [
    | err x ↦ some (err x, w)
    | ok user ↦ mint env fuel user type w
  ]

  abbrev pub level_up_card : List ℕ → CardAction env CardTokenModel
  level_up_card ids =
      guarded current_user (λ user. CardService.level_up_card env user (map big_number_from ids))

  abbrev pub owned_card_tokens : CardAction env (List CardTokenModel)
  owned_card_tokens = guarded current_user (λ user. get_card_tokens_of_user env user none)

  -- The field `token` of an auction.
  abbrev pub token : Auction → CardAction env (Option CardTokenModel)
  token parent = find_one_card_token env (big_number_from parent.token_id)

module _ {S N Q C : Type 0} (env : AuctionEnv S N Q C) (current_user : Result User) where
  abbrev pub start_auction : ℕ → ℕ → ℕ → AuctionAction env Auction
  start_auction now token_id start_bid = guarded current_user (λ user.
      AuctionService.start_auction env now user.id (env.big_number_from token_id)
        (env.parse_ether start_bid))

  abbrev pub bid : ℕ → ℕ → ℕ → AuctionAction env (Option Auction)
  bid now auction_id value =
      guarded current_user
        (λ user. AuctionService.bid env now user.id auction_id (env.parse_ether value))

  abbrev pub all_auctions : AuctionAction env (List Auction)
  all_auctions = AuctionService.all_auctions env

  abbrev pub owned_auctions : AuctionAction env (List Auction)
  owned_auctions = guarded current_user (λ user. AuctionService.owned_auctions env user.id)

  abbrev pub participated_auctions : AuctionAction env (List Auction)
  participated_auctions =
      guarded current_user (λ user. AuctionService.participated_auctions env user.id)
