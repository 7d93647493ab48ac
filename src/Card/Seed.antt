-- ===== src/Card/Seed.antt =====
-- src/common/command/seed.command.ts: `seedToken`, which mints tokens of cards to a user.
pub mod Copies
pub mod Choices
pub mod Rounds
use zombiies_api.Common.{
  ℕ, zero, suc, ◌+◌, ◌≤◌, ◌≡◌, refl, sym, ap, ◌∙◌, inl, inr, ◌⊎◌, Bool, true, false, Option, none,
  some, List, [], ◌∷◌, ◌++◌, ◌==◌, Result, ok, err, Error, type_error, or_throw, Action, and_then,
  lift, find_by_id, length, All, is_ok, arith, Result-cases, Option-cases,
}
use zombiies_api.Common.Async.{◌>>=◌, ◌>>◌}
use zombiies_api.User.Model.{User}
use zombiies_api.Ether
use zombiies_api.Ether.{Transfer, minted}
use zombiies_api.Ether.Wallets.{get_wallet_of_user}
use zombiies_api.Card.Model.{elite}
use zombiies_api.Card.Receipt.{get_token_ids_from_receipt}
use zombiies_api.Card.Schema.{Card}
use zombiies_api.Card.Draws.{Draws}
use zombiies_api.Card.Service.{CardEnv, World, CardAction, on_chain, head_of, find_token_of, seed}
use zombiies_api.Card.Mint.{Running, get_random_cards, finish, awarded}

-- The card of a round, which is `undefined` when nothing was drawn, or a card that is not found.
pub data Choice : Type 0 where
  token_not_found : Choice
  chosen : Option Card → Choice

abbrev pub found : Option Card → Choice
found none = token_not_found
found (some c) = chosen (some c)

-- What follows a call that may still run.
abbrev pub then_run : {S A B : Type 0} → Running S A → (A → S → Running S B) → Running S B
then_run none k = none
then_run (some (err x, w)) k = some (err x, w)
then_run (some (ok a, w)) k = k a w

module _ {S U C : Type 0} (env : CardEnv S U C) where
  open env use {card_model, user_model, client}
  open client use {chain}

  abbrev pub first_card : Result Draws → CardAction env Choice
  first_card randoms = do d ← lift randoms; lift (ok (chosen (head_of d.cards)))

  -- The card of a round; `date k` is the text of `Date()` at the `k`-th random number.
  unfoldable pub choose : (ℕ → ℕ) → ℕ → Option ℕ → World S U C → Running (World S U C) Choice
  choose date fuel (some token_uri) w =
      some (ok (found (card_model.find_one (λ c. c.token_uri == token_uri) w.cards)), w)
  choose date fuel none w =
      finish env
        (get_random_cards env fuel (date w.draws) (awarded (env.coin w.draws)) 1 8 elite w.cards)
        first_card (record w { draws = suc w.draws })

  abbrev pub mint_copy : ℕ → Option Card → ℕ → CardAction env (Unit {0})
  mint_copy address card proof_uri = do
    c ← lift (or_throw card type_error)
    receipt ← on_chain env (Ether.mint_token chain address c.token_uri proof_uri)
    _ ← find_token_of env (get_token_ids_from_receipt (λ from to. true) receipt.events)
    lift (ok tt)

  unfoldable pub mint_copies : ℕ → Option Card → ℕ → ℕ → CardAction env (Unit {0})
  mint_copies address card proof_uri zero = lift (ok tt)
  mint_copies address card proof_uri (suc n) = do
    mint_copy address card proof_uri
    mint_copies address card proof_uri n

  unfoldable pub mint_card : User → Option Card → ℕ → CardAction env (Unit {0})
  unfolding mint_copies
  mint_card user card count = do
    proof_uri ← on_chain env (env.put_object seed)
    mint_copies (get_wallet_of_user client user).address card proof_uri count

  unfoldable pub seed_rounds :
      (ℕ → ℕ) → ℕ → User → Option ℕ → ℕ → ℕ → World S U C → Running (World S U C) (Unit {0})
  unfolding choose mint_copies
  seed_rounds date fuel user token_uri count zero w = some (ok tt, w)
  seed_rounds date fuel user token_uri count (suc n) w =
      then_run (choose date fuel token_uri w) λ choice v. elim choice [
        | token_not_found ↦ some (ok tt, v)
        | chosen card ↦
            then_run (some (mint_card user card count v))
              (λ _ u. seed_rounds date fuel user token_uri count n u)
      ]

  unfoldable pub seed_token :
      (ℕ → ℕ) → ℕ → ℕ → Option ℕ → ℕ → ℕ → World S U C → Running (World S U C) (Unit {0})
  unfolding seed_rounds
  seed_token date fuel user_id token_uri count unique_count w =
      elim (find_by_id user_model user_id w.users) [
        | none ↦ some (ok tt, w)
        | some user ↦ seed_rounds date fuel user token_uri count unique_count w
      ]
