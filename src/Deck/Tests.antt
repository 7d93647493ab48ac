-- ===== src/Deck/Tests.antt =====
-- A concrete deck service in memory, on which the theorems of Deck are applied.
use zombiies_api.Common.{ℕ, ◌≡◌, refl, some, List, [], ◌∷◌, ok, err, arith, forbidden}
use zombiies_api.Common.Memory.{memory}
use zombiies_api.Card.Model.{CardTokenModel, monster, common, chaos}
use zombiies_api.Deck.Model.{Deck, DeckCard}
use zombiies_api.Deck.Slots.{add_card}
use zombiies_api.Deck.Slots.Valid.{IsValid}
use zombiies_api.Deck.Service.{
  DeckEnv, World, add_card_to_deck, remove_card_from_deck, update_deck, delete_deck,
}
use zombiies_api.Deck.Service.Owner.{permission_denied}
use zombiies_api.Deck.Service.Limit.{
  Inv, Call, creates, adds, removes, renames, deletes, after_calls, after_calls-Inv,
}

abbrev slot : ℕ → ℕ → DeckCard
slot p t = record { position = p; token_id = t }

abbrev cards : List DeckCard
cards = slot 0 10 ∷ slot 2 11 ∷ slot 9 12 ∷ []

cards-IsValid : IsValid cards
cards-IsValid = ground arith

abbrev more_cards : List DeckCard
more_cards = slot 0 10 ∷ slot 1 13 ∷ slot 2 11 ∷ slot 9 12 ∷ []

gap_filled : add_card 13 (some monster) cards ≡ ok more_cards
unfolding add_card
gap_filled = refl

abbrev token : ℕ → CardTokenModel
token id = record {
  token_id = id;
  name = id;
  cost = 1;
  rare_level = common;
  faction = chaos;
  type = monster;
  token_uri = id;
  level = 1;
  skills = [];
}

-- Every user owns every token.
abbrev env : DeckEnv (List Deck) ℕ
env = record {
  model = memory (λ d. d.id);
  id_lem = λ d. refl;
  to_hex_string = λ n. n;
  big_number_from = λ n. n;
  find_and_check_token_by_user = λ user id e. (ok (some (token id)), e);
  find_card_tokens = λ ids e. (ok [], e);
}

abbrev world : World (List Deck) ℕ
world = record {
  decks = record { id = 1; name = 5; owner = some 1; deck_cards = cards } ∷ [];
  others = 0;
}

permission_denied_example :
    let e = forbidden "You do not have permission to do this action" in
    (add_card_to_deck env 2 13 1 world ≡ (err e, world))
    × (remove_card_from_deck env 2 13 1 world ≡ (err e, world))
    × (update_deck env 2 1 6 world ≡ (err e, world))
    × (delete_deck env 2 1 world ≡ (err e, world))
permission_denied_example = permission_denied env 2 1 13 6 world refl

abbrev calls : List Call
calls =
    creates 1 7
    ∷ adds 1 13 1
    ∷ renames 2 1 8
    ∷ creates 1 9
    ∷ creates 1 10
    ∷ removes 1 10 1
    ∷ deletes 1 2
    ∷ []

world-Inv : Inv env world
world-Inv = record { valid = (cards-IsValid, tt); limited = λ user. ground arith }

after_calls-Inv_example : Inv env (after_calls env calls world)
after_calls-Inv_example = after_calls-Inv env calls world world-Inv
