-- ===== src/Deck/Slots.antt =====
-- src/module/deck/deck.service.ts: the 16 slots of a deck, 0 to 7 for monsters and 8 to 15 for
-- equipment, and what `addCardToDeck` and `removeCardFromDeck` compute from the deck's cards.
pub mod Order
pub mod Free
pub mod Valid
use Prim.Native.String.{String}
use zombiies_api.Common.{
  ℕ, zero, suc, ◌+◌, Bool, true, false, not, Option, none, some, List, [], ◌∷◌, ◌++◌, map, ltb, leb,
  ◌==◌, if◌then◌else◌, is_some, length, find, filter, any, Result, ok, err, Error, bad_request,
  external, type_error, throw_if, or_throw, ◌>>=◌, ◌>>◌,
}
use zombiies_api.Card.Model.{CardType, is_monster}
use zombiies_api.Deck.Model.{DeckCard}

-- `xs.includes(p)`.
abbrev pub includes : ℕ → List ℕ → Bool
includes p = any (λ x. x == p)

abbrev pub has_token : ℕ → DeckCard → Bool
has_token token c = c.token_id == token

-- `position < 8` for a monster and `position >= 8` for an equipment.
abbrev pub on_side : Bool → ℕ → Bool
on_side true position = ltb position 8
on_side false position = leb 8 position

abbrev pub existed_position : Bool → List DeckCard → List ℕ
existed_position side cards = filter (on_side side) (map (λ c. c.position) cards)

-- `Array.from({ length: n }, (_u, v) => v + base)`.
abbrev pub slots : ℕ → ℕ → List ℕ
slots base zero = []
slots base (suc n) = base ∷ slots (suc base) n

abbrev pub first_slot : Bool → ℕ
first_slot side = if side then 0 else 8

unfoldable pub new_position : Bool → List ℕ → Option ℕ
new_position side existed = find (λ p. not (includes p existed)) (slots (first_slot side) 8)

-- `sort((c1, c2) => c1.position - c2.position)`, which is stable.
abbrev pub insert_card : DeckCard → List DeckCard → List DeckCard
insert_card x [] = x ∷ []
insert_card x (c ∷ cs) = if leb x.position c.position then x ∷ c ∷ cs else c ∷ insert_card x cs

abbrev pub sort_cards : List DeckCard → List DeckCard
sort_cards [] = []
sort_cards (c ∷ cs) = insert_card c (sort_cards cs)

-- The type is read from the token, which is `undefined` if the contract does not list it.
-- Without a free slot the source would store a card that has no position; that case is the last
-- exception here, and `add_card-total` shows that it does not arise.
unfoldable pub add_card : ℕ → Option CardType → List DeckCard → Result (List DeckCard)
unfolding new_position
add_card token_id found cards = do
  throw_if (is_some (find (has_token token_id) cards))
      (bad_request "This card have already added to this deck")
  type ← or_throw found type_error
  let existed = existed_position (is_monster type) cards
  throw_if (length existed == 8) (bad_request "Your deck is full")
  position ← or_throw (new_position (is_monster type) existed) (external "no free position")
  ok (sort_cards (cards ++ record { position = position; token_id = token_id } ∷ []))

unfoldable pub remove_card : ℕ → List DeckCard → List DeckCard
remove_card token_id = filter (λ c. not (has_token token_id c))
