-- ===== src/Api/Decks/Owned.antt =====
-- Who owns the tokens that get into a deck.
use zombiies_api.Common.{
  ℕ, ◌≡◌, refl, ap, ◌∙◌, inl, inr, Bool, true, false, [], ◌∷◌, ◌⊎◌, Error, Result, ok, err, is_ok,
  and_then, Result-cases, Bool-cases, Option-cases, Collection, find_by_id,
}
use zombiies_api.User.Model.{User}
use zombiies_api.Ether
use zombiies_api.Ether.Wallets.{get_wallet_of_user}
use zombiies_api.Card.Service as CardService
use zombiies_api.Card.Service.{
  CardEnv, find_card_tokens, find_and_check_token_by_user, find_one_card_token, is_owner_of,
}
use zombiies_api.Deck.Model.{Deck}
use zombiies_api.Deck.Service as DeckService
use zombiies_api.Deck.Service.{DeckEnv, World, is_owner, get_deck_with_user_permission}
use zombiies_api.Api.Decks.{add_card_to_deck}

module _ {S U C : Type 0} (cards : CardEnv S U C) where
  open cards use {client}
  open client use {chain}

  -- The answer of the contract, after it was asked for the token.
  abbrev pub owner_answer : User → ℕ → CardService.World S U C → Result Bool
  owner_answer user token_id w =
      (Ether.is_owner_of chain (get_wallet_of_user client user).address token_id
        (chain.tokens_in (token_id ∷ []) w.chain_state).1).0

  find_and_check-ok :
      (user : User) (token_id : ℕ) (w : CardService.World S U C)
      → (owner_answer user token_id w ≡ ok true)
        ⊎ ((x : Error) × ((find_and_check_token_by_user cards user token_id w).0 ≡ err x))
  unfolding find_and_check_token_by_user
  find_and_check-ok user token_id w =
      elim (Result-cases (chain.tokens_in (token_id ∷ []) w.chain_state).0) [
        | inr (x, e) ↦ rw (e, and_then) (inr (x, refl))
        | inl (ts, e) ↦ elim (Result-cases (owner_answer user token_id w)) [
          | inr (x, o) ↦ rw (e, and_then) (rw (o, and_then) (inr (x, refl)))
          | inl (owns, o) ↦ elim (Bool-cases owns) [
            | inl mine ↦ inl (o ∙ ap ok mine)
            | inr strange ↦ rw (e, and_then) (rw (o, strange) (inr (_, refl)))
          ]
        ]
      ]

module _ {D S U C : Type 0} (cards : CardEnv S U C) (model : Collection D Deck)
    (id_lem : (d : Deck) → model.id d ≡ d.id) (big_number_from : ℕ → ℕ) where
  -- `addCardToDeck` either fails and leaves every deck as it was; or there is an authenticated
  -- user, and the contract has named that user's wallet as the owner of the token.
  pub add_card_to_deck-owned :
      (current_user : Result User) (deck_id token_id : ℕ) (w : World D (CardService.World S U C))
      → let out =
          add_card_to_deck cards model id_lem big_number_from current_user deck_id token_id w in
        ((is_ok out.0 ≡ false) × (out.1.decks ≡ w.decks))
        ⊎ ((user : User) × (current_user ≡ ok user)
            × (owner_answer cards user (big_number_from token_id) w.others ≡ ok true))
  unfolding DeckService.add_card_to_deck
  add_card_to_deck-owned (err x) deck_id token_id w = inl (refl, refl)
  add_card_to_deck-owned (ok user) deck_id token_id w =
      elim (find_and_check-ok cards user (big_number_from token_id) w.others) [
        | inl o ↦ inr (user, refl, o)
        | inr (x, e) ↦ inl (elim (Option-cases (find_by_id model deck_id w.decks)) [
          | inl n ↦ rw n (refl, refl)
          | inr (d, f) ↦ elim (Bool-cases (is_owner user.id d)) [
            | inr strange ↦ rw f (rw strange (refl, refl))
            | inl owner ↦ rw f (rw (owner, e) (refl, refl))
          ]
        ])
      ]
