-- ===== src/Card/Mint.antt =====
-- `getRandomCardsWithRandomValue`, `mint` and `award` of src/module/card/card.service.ts. The loop of
-- draws runs on fuel; a call whose loop still runs has no outcome, `none`.
pub mod Outcome
pub mod Ends
use zombiies_api.Common.{
  ℕ, suc, ◌≡◌, Bool, true, false, Option, none, some, List, [], ◌∷◌, Result, ok, err, Error,
  type_error, or_throw, Action, and_then, try_catch, lift, gets, modify, find_by_id,
}
use zombiies_api.Common.Async.{◌>>=◌, ◌>>◌}
use zombiies_api.User.Model.{User}
use zombiies_api.Ether
use zombiies_api.Ether.{Receipt}
use zombiies_api.Ether.Wallets.{WalletSigner, get_wallet_of_user, owner_wallet}
use zombiies_api.Card.Model.{CardTokenModel, CardType, monster, equipment, RareLevel, common, elite}
use zombiies_api.Card.Receipt.{get_token_ids_from_receipt}
use zombiies_api.Card.Schema.{Card}
use zombiies_api.Card.Draws.{Draws, no_draws, draw_cards, fits}
use zombiies_api.Card.Service.{
  CardEnv, World, CardAction, on_chain, get_max_card_seed, get_mint_fee, head_of, find_token_of,
  Proof, bought, rewarded,
}

-- An outcome of a call, unless it still runs.
abbrev pub Running : Type 0 → Type 0 → Type 0
Running S A = Option (Result A × S)

abbrev pub as_ok : Option Draws → Option (Result Draws)
as_ok none = none
as_ok (some d) = some (ok d)

-- `Math.random() * 2 > 1 ? CardType.MONSTER : CardType.EQUIPMENT`.
abbrev pub awarded : Bool → CardType
awarded true = monster
awarded false = equipment

module _ {S U C : Type 0} (env : CardEnv S U C) where
  open env use {card_model, client}
  open client use {chain}

  abbrev pub draw_from : ℕ → ℕ → RareLevel → CardType → ℕ → S → ℕ → Option Card
  draw_from seed max_level max_rare type max s value =
      card_model.find_one (fits max_level max_rare type value) s

  abbrev draws_below : ℕ → ℕ → CardType → ℕ → ℕ → RareLevel → S → Result ℕ → Option (Result Draws)
  draws_below fuel seed type count max_level max_rare s (err x) = some (err x)
  draws_below fuel seed type count max_level max_rare s (ok max) = as_ok (
      draw_cards fuel (draw_from seed max_level max_rare type max s) (λ k. env.next_int seed k max)
        count 0 no_draws)

  -- The cards are read at each draw; nothing is written between the draws.
  unfoldable pub get_random_cards : ℕ → ℕ → CardType → ℕ → ℕ → RareLevel → S → Option (Result Draws)
  get_random_cards fuel seed type count max_level max_rare s =
      draws_below fuel seed type count max_level max_rare s (get_max_card_seed env s)

  abbrev pub finish :
      {A B : Type 0}
      → Option (Result A)
      → (Result A → CardAction env B)
      → World S U C
      → Running (World S U C) B
  finish none k w = none
  finish (some r) k w = some (k r w)

  -- The fee is paid to the owner.
  abbrev pub pay_fee : User → CardAction env (ℕ × Receipt)
  pay_fee user = do
    fee ← get_mint_fee env
    receipt ←
        on_chain env (
          Ether.pay chain (get_wallet_of_user client user).address (owner_wallet client).address
            fee)
    lift (ok (fee, receipt))

  -- The body of the `try`, from the drawn cards on: the ids of the minted tokens.
  abbrev pub mint_first : ℕ → (Draws → Proof) → Result Draws → CardAction env (List ℕ)
  mint_first address proof draws = do
    d ← lift draws
    proof_uri ← on_chain env (env.put_object (proof d))
    card ← lift (or_throw (head_of d.cards) type_error)
    receipt ← on_chain env (Ether.mint_token chain address card.token_uri proof_uri)
    lift (ok (get_token_ids_from_receipt (λ from to. true) receipt.events))

  -- A failure sends the fee back, which is not waited for; the token is read outside the `try`.
  unfoldable pub mint_paid :
      User → ℕ × Receipt → Result Draws → CardAction env (Option CardTokenModel)
  mint_paid user (fee, receipt) draws = do
    ids ←
        try_catch
          (mint_first (get_wallet_of_user client user).address (bought receipt.transaction_hash)
            draws)
          (λ e. do
            _ ← on_chain env (
                chain.send_transaction (owner_wallet client).address
                  (get_wallet_of_user client user).address fee)
            lift (err e))
    find_token_of env ids

  abbrev pub mint_after :
      ℕ
      → User
      → CardType
      → Result (ℕ × Receipt) × World S U C
      → Running (World S U C) (Option CardTokenModel)
  unfolding get_random_cards mint_paid
  mint_after fuel user type (err x, w) = some (err x, w)
  mint_after fuel user type (ok p, w) =
      finish (get_random_cards fuel p.1.transaction_hash type 1 1 common w.cards) (mint_paid user p)
        w

  unfoldable pub mint :
      ℕ → User → CardType → World S U C → Running (World S U C) (Option CardTokenModel)
  unfolding get_random_cards mint_paid
  mint fuel user type w = mint_after fuel user type (pay_fee user w)

  abbrev pub award_to : Option User → ℕ → ℕ → Result Draws → CardAction env (Option CardTokenModel)
  award_to found seed match_id draws = do
    d ← lift draws
    user ← lift (or_throw found type_error)
    proof_uri ← on_chain env (env.put_object (rewarded seed match_id))
    card ← lift (or_throw (head_of d.cards) type_error)
    receipt ←
        on_chain env
          (Ether.mint_token chain (get_wallet_of_user client user).address card.token_uri proof_uri)
    find_token_of env (get_token_ids_from_receipt (λ from to. true) receipt.events)

  -- `seed` is the text of the match's `updatedAt`. A match that is `null` has none.
  unfoldable pub award :
      ℕ → ℕ → Option (ℕ × ℕ) → World S U C → Running (World S U C) (Option CardTokenModel)
  unfolding get_random_cards
  award fuel user_id none w = some (err type_error, w)
  award fuel user_id (some (seed, match_id)) w =
      finish (get_random_cards fuel seed (awarded (env.coin w.draws)) 1 1 elite w.cards)
        (award_to (find_by_id env.user_model user_id w.users) seed match_id)
        (record w { draws = suc w.draws })
