-- ===== src/Deck/Service.antt =====
-- src/module/deck/deck.service.ts: the methods of the deck service over the collection of decks.
-- `BigNumber` is a number, and `toHexString` and `BigNumber.from` are those of ethers.
pub mod Owner
pub mod Limit
use Prim.Native.String.{String}
use zombiies_api.Common.{
  ℕ, ◌≡◌, Bool, true, false, not, Option, none, some, List, [], ◌∷◌, map, leb, ◌==◌, if◌then◌else◌,
  find, any, Result, ok, err, Error, bad_request, not_found, forbidden, or_throw, throw_if, Action,
  lift, gets, modify, Collection, find_by_id, update_one, delete_one,
}
use zombiies_api.Common.Async.{◌>>=◌, ◌>>◌}
use zombiies_api.Card.Model.{CardTokenModel, CardType}
use zombiies_api.Deck.Model.{Deck, DeckCard, DeckCardModel}
use zombiies_api.Deck.Slots.{has_token, add_card, remove_card}

-- What the service is injected with: two methods of `CardService`, which act on a state of their own.
pub record DeckEnv (S E : Type 0) : Type 0 where
  pub model : Collection S Deck
  pub id_lem : (d : Deck) → model.id d ≡ d.id
  pub to_hex_string : ℕ → ℕ
  pub big_number_from : ℕ → ℕ
  pub find_and_check_token_by_user : ℕ → ℕ → Action E (Option CardTokenModel)
  pub find_card_tokens : List ℕ → Action E (List CardTokenModel)

pub record World (S E : Type 0) : Type 0 where
  pub decks : S
  pub others : E

abbrev pub is_owner : ℕ → Deck → Bool
is_owner user d = elim d.owner [ none ↦ false | some u ↦ u == user ]

abbrev type_of : Option CardTokenModel → Option CardType
type_of none = none
type_of (some t) = some t.type

-- `{ position, ...token }` for the token of each card.
abbrev pub deck_card_model : List CardTokenModel → DeckCard → DeckCardModel
deck_card_model tokens c = record {
  position = c.position;
  token = find (λ t. t.token_id == c.token_id) tokens;
}

module _ {S E : Type 0} (env : DeckEnv S E) where
  open env use {model, to_hex_string, big_number_from}

  abbrev pub DeckAction : Type 0 → Type 0
  DeckAction = Action (World S E)

  abbrev pub other : {A : Type 0} → Action E A → DeckAction A
  other m w = let (r, e) = m w.others in (r, record w { others = e })

  abbrev pub update : (S → S) → DeckAction (Unit {0})
  update f = modify (λ w. record w { decks = f w.decks })

  abbrev pub read : ℕ → DeckAction (Option Deck)
  read id = gets (λ w. find_by_id model id w.decks)

  unfoldable pub get_deck_with_user_permission : ℕ → ℕ → DeckAction Deck
  get_deck_with_user_permission user deck_id = do
    found ← read deck_id
    deck ← lift (or_throw found (not_found "Not found this deck id"))
    lift (
        throw_if (not (is_owner user deck))
          (forbidden "You do not have permission to do this action"))
    lift (ok deck)

  unfoldable pub remove_card_from_deck : ℕ → ℕ → ℕ → DeckAction (Option Deck)
  unfolding get_deck_with_user_permission
  remove_card_from_deck user token_id deck_id = do
    deck ← get_deck_with_user_permission user deck_id
    update (
        update_one model deck.id
          (λ d. record d { deck_cards = remove_card (to_hex_string token_id) deck.deck_cards }))
    read deck.id

  unfoldable pub add_card_to_deck : ℕ → ℕ → ℕ → DeckAction (Option Deck)
  unfolding get_deck_with_user_permission
  add_card_to_deck user token_id deck_id = do
    deck ← get_deck_with_user_permission user deck_id
    found ← other (env.find_and_check_token_by_user user token_id)
    cards ← lift (add_card (to_hex_string token_id) (type_of found) deck.deck_cards)
    update (update_one model deck.id (λ d. record d { deck_cards = cards }))
    read deck.id

  unfoldable pub update_deck : ℕ → ℕ → ℕ → DeckAction (Option Deck)
  unfolding get_deck_with_user_permission
  update_deck user deck_id name = do
    deck ← get_deck_with_user_permission user deck_id
    update (update_one model deck.id (λ d. record d { name = name }))
    read deck.id

  abbrev pub owned_decks_count : ℕ → DeckAction ℕ
  owned_decks_count user = gets (λ w. model.count_documents (is_owner user) w.decks)

  unfoldable pub create_deck : ℕ → ℕ → DeckAction Deck
  create_deck user name = do
    count ← owned_decks_count user
    lift (throw_if (leb 3 count) (bad_request "Each player can have only maximum of 3 decks"))
    id ← gets (λ w. model.new_id w.decks)
    let deck : Deck = record { id = id; name = name; owner = some user; deck_cards = [] }
    update (model.create (λ i. record deck { id = i }))
    lift (ok deck)

  unfoldable pub delete_deck : ℕ → ℕ → DeckAction (Unit {0})
  unfolding get_deck_with_user_permission
  delete_deck user deck_id = do
    deck ← get_deck_with_user_permission user deck_id
    update (delete_one model deck.id)

  abbrev pub owned_deck_by_user_id : ℕ → DeckAction (Option Deck)
  owned_deck_by_user_id user = gets (λ w. model.find_one (is_owner user) w.decks)

  abbrev pub owned_decks : ℕ → DeckAction (List Deck)
  owned_decks user = gets (λ w. model.find_many (is_owner user) w.decks)

  unfoldable pub get_deck_card_models : List DeckCard → DeckAction (List DeckCardModel)
  get_deck_card_models cards = do
    tokens ← other (env.find_card_tokens (map (λ c. big_number_from c.token_id) cards))
    lift (ok (map (deck_card_model tokens) cards))

  unfoldable pub is_card_in_deck : ℕ → ℕ → ℕ → DeckAction Bool
  unfolding get_deck_with_user_permission
  is_card_in_deck user token_id deck_id = do
    deck ← get_deck_with_user_permission user deck_id
    lift (ok (any (has_token (to_hex_string token_id)) deck.deck_cards))
