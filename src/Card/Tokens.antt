-- ===== src/Card/Tokens.antt =====
-- `getCardTokensFromToken` of src/module/card/card.service.ts, which joins the tokens of the contract
-- with the stored cards, and `allStringsEqual` of src/common/util/string.util.ts.
pub mod Join
use Prim.Native.String.{String}
use zombiies_api.Common.{
  ℕ, zero, suc, ◌+◌, ◌≤◌, ◌≡◌, ◌↔◌, refl, sym, ap, ◌∙◌, inl, inr, Bool, true, false, ◌&&◌, Option,
  none, some, List, [], ◌∷◌, map, ◌==◌, if◌then◌else◌, any, find, filter, length, All, arith,
  Bool-cases, Option-cases, is_some, Collection, Result, ok, err, throw_if, bad_request, not, ◌>>◌,
  ◌>>=◌,
}
use zombiies_api.Card.Model.{CardTokenModel, CardType, monster, equipment}
use zombiies_api.Card.Schema.{Card, to_token}
use zombiies_api.Card.Draws.{type_eq}
use zombiies_api.Ether.{ContractToken}

-- `type ? [type] : [CardType.MONSTER, CardType.EQUIPMENT]`.
abbrev pub types_of : Option CardType → List CardType
types_of none = monster ∷ equipment ∷ []
types_of (some t) = t ∷ []

-- The query: `tokenUri` and `type` are among the values.
abbrev pub is_listed : List ContractToken → Option CardType → Card → Bool
is_listed tokens type c =
    any (λ t. t.uri == c.token_uri) tokens && any (type_eq c.type) (types_of type)

-- The map from uris to cards: a later card of a uri takes the place of an earlier one.
abbrev pub cards_by_uri : (ℕ → Option Card) → List Card → ℕ → Option Card
cards_by_uri memo [] = memo
cards_by_uri memo (c ∷ cs) =
    cards_by_uri (λ uri. if c.token_uri == uri then some c else memo uri) cs

abbrev pub keep_token : Option Card → ℕ → List CardTokenModel → List CardTokenModel
keep_token none id rest = rest
keep_token (some c) id rest = to_token id c ∷ rest

-- `filter` and `map` of the tokens: those of a listed uri, with their cards.
abbrev pub with_cards : (ℕ → Option Card) → List ContractToken → (ℕ → ℕ) → List CardTokenModel
with_cards by_uri [] hex = []
with_cards by_uri (t ∷ ts) hex = keep_token (by_uri t.uri) (hex t.id) (with_cards by_uri ts hex)

-- The set of the strings has one element.
abbrev pub set_of : List ℕ → List ℕ
set_of [] = []
set_of (x ∷ xs) = let rest = set_of xs in if any (λ y. y == x) rest then rest else x ∷ rest

unfoldable pub all_strings_equal : List ℕ → Bool
all_strings_equal xs = length (set_of xs) == 1

-- The checks of `levelUpCard` on the cards of the tokens to sacrifice, and the first of them.
unfoldable pub matching : List CardTokenModel → Result CardTokenModel
unfolding all_strings_equal
matching [] = err (bad_request "Must combine two cards to level up")
matching (c ∷ cs) = do
  throw_if (not (length (c ∷ cs) == 2)) (bad_request "Must combine two cards to level up")
  throw_if (not (all_strings_equal (map (λ x. x.token_uri) (c ∷ cs))))
      (bad_request "All sacrifice cards must be same type and level")
  ok c

module _ {S : Type 0} (model : Collection S Card) (hex : ℕ → ℕ) where
  unfoldable pub get_card_tokens_from_token :
      List ContractToken → Option CardType → S → List CardTokenModel
  get_card_tokens_from_token tokens type s =
      with_cards (cards_by_uri (λ uri. none) (model.find_many (is_listed tokens type) s)) tokens hex
