-- ===== src/Deck/Model.antt =====
-- src/module/deck: a deck and its cards (schema/deck.schema.ts, model/deck-card.model.ts).
use zombiies_api.Common.{ℕ, List, Option}
use zombiies_api.Card.Model.{CardTokenModel}

-- `DeckCard` of the schema: a slot of the deck.
pub record DeckCard : Type 0 where
  pub position : ℕ
  pub token_id : ℕ

-- A deck card spread with its token, `{ position, ...token }`: the token is missing when the
-- contract does not list it.
pub record DeckCardModel : Type 0 where
  pub position : ℕ
  pub token : Option CardTokenModel

pub record Deck : Type 0 where
  pub id : ℕ
  pub name : ℕ
  pub owner : Option ℕ
  pub deck_cards : List DeckCard
