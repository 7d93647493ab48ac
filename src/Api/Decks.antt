-- ===== src/Api/Decks.antt =====
-- src/module/deck/deck.resolver.ts behind the guard, over the deck service that is injected with the
-- card service, and the ownership of the tokens of a deck.
pub mod Owned
use zombiies_api.Common.{ℕ, ◌≡◌, Bool, Option, List, Result, ok, err, Action, Collection}
use zombiies_api.User.Model.{User}
use zombiies_api.Card.Service as CardService
use zombiies_api.Card.Service.{CardEnv, find_card_tokens, find_and_check_token_by_user}
use zombiies_api.Deck.Model.{Deck, DeckCard, DeckCardModel}
use zombiies_api.Deck.Service as DeckService
use zombiies_api.Deck.Service.{DeckEnv, World, get_deck_card_models}
use zombiies_api.Api.{guarded}

module _ {D S U C : Type 0} (card_service : CardEnv S U C) (model : Collection D Deck)
    (id_lem : (d : Deck) → model.id d ≡ d.id) (big_number_from : ℕ → ℕ) where
  -- The deck service at a request of a user, with the methods of the card service.
  abbrev pub deck_env : User → DeckEnv D (CardService.World S U C)
  deck_env user = record {
    model = model;
    id_lem = id_lem;
    to_hex_string = card_service.to_hex_string;
    big_number_from = big_number_from;
    find_and_check_token_by_user =
        λ _ token_id. find_and_check_token_by_user card_service user token_id;
    find_card_tokens = find_card_tokens card_service;
  }

  abbrev pub Answer : Type 0 → Type 0
  Answer = Action (World D (CardService.World S U C))

  module _ (current_user : Result User) where
    abbrev pub create_deck : ℕ → Answer Deck
    create_deck name = guarded current_user (λ u. DeckService.create_deck (deck_env u) u.id name)

    abbrev pub update_deck : ℕ → ℕ → Answer (Option Deck)
    update_deck name deck_id =
        guarded current_user (λ u. DeckService.update_deck (deck_env u) u.id deck_id name)

    abbrev pub delete_deck : ℕ → Answer (Unit {0})
    delete_deck deck_id =
        guarded current_user (λ u. DeckService.delete_deck (deck_env u) u.id deck_id)

    abbrev pub add_card_to_deck : ℕ → ℕ → Answer (Option Deck)
    add_card_to_deck deck_id token_id =
        guarded current_user
          (λ u. DeckService.add_card_to_deck (deck_env u) u.id (big_number_from token_id) deck_id)

    abbrev pub remove_card_from_deck : ℕ → ℕ → Answer (Option Deck)
    remove_card_from_deck deck_id token_id = guarded current_user (λ u.
        DeckService.remove_card_from_deck (deck_env u) u.id (big_number_from token_id) deck_id)

    abbrev pub owned_decks : Answer (List Deck)
    owned_decks = guarded current_user (λ u. DeckService.owned_decks (deck_env u) u.id)

    abbrev pub is_card_in_deck : ℕ → ℕ → Answer Bool
    is_card_in_deck deck_id token_id =
        guarded current_user
          (λ u. DeckService.is_card_in_deck (deck_env u) u.id (big_number_from token_id) deck_id)
