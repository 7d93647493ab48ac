-- ===== src/Card/Tokens/Join.antt =====
-- What `getCardTokensFromToken` of src/module/card/card.service.ts gives for each token, and what
-- `allStringsEqual` decides.
use zombiies_api.Common.{
  ℕ, ◌≡◌, ◌↔◌, ◌⊎◌, refl, ap, ◌∙◌, inl, inr, Bool, true, false, ◌&&◌, Option, none, some, List, [],
  ◌∷◌, ◌==◌, if◌then◌else◌, any, find, filter, length, All, arith, Bool-cases, Collection, ==_refl,
}
use zombiies_api.Common.Keys.{filter_keeps_none}
use zombiies_api.Card.Model.{CardTokenModel, CardType}
use zombiies_api.Card.Schema.{Card}
use zombiies_api.Card.Draws.{type_eq}
use zombiies_api.Card.Tokens.{
  types_of, is_listed, cards_by_uri, with_cards, keep_token, get_card_tokens_from_token, set_of,
  all_strings_equal,
}
use zombiies_api.Ether.{ContractToken}

-- `tokenUri` has a unique index.
abbrev pub UniqueUris : List Card → Type 0
UniqueUris [] = Unit
UniqueUris (c ∷ cs) = (find (λ x. x.token_uri == c.token_uri) cs ≡ none) × UniqueUris cs

abbrev pub has_type : Option CardType → Card → Bool
has_type type c = any (type_eq c.type) (types_of type)

-- The card of a token, of an asked type, searched for it alone.
abbrev pub card_of : Option CardType → List Card → ContractToken → Option Card
card_of type cards t = find (λ c. has_type type c && (c.token_uri == t.uri)) cards

abbrev pub joined : Option CardType → List Card → (ℕ → ℕ) → List ContractToken → List CardTokenModel
joined type cards hex [] = []
joined type cards hex (t ∷ ts) =
    keep_token (card_of type cards t) (hex t.id) (joined type cards hex ts)

UniqueUris-filter : (q : Card → Bool) (cs : List Card) → UniqueUris cs → UniqueUris (filter q cs)
UniqueUris-filter q [] h = tt
UniqueUris-filter q (c ∷ cs) h = elim (Bool-cases (q c)) [
  | inl t ↦
      rw t
        (filter_keeps_none (λ x. x.token_uri == c.token_uri) q cs h.0, UniqueUris-filter q cs h.1)
  | inr t ↦ rw t (UniqueUris-filter q cs h.1)
]

cards_by_uri-find :
    (memo : ℕ → Option Card) (cs : List Card) (uri : ℕ)
    → UniqueUris cs
    → cards_by_uri memo cs uri
      ≡ elim (find (λ c. c.token_uri == uri) cs) [ none ↦ memo uri | some c ↦ some c ]
cards_by_uri-find memo [] uri h = refl
cards_by_uri-find memo (c ∷ cs) uri h =
    let ih = cards_by_uri-find (λ u. if c.token_uri == u then some c else memo u) cs uri h.1 in
    elim (Bool-cases (c.token_uri == uri)) [
      | inl e ↦
          let same : c.token_uri ≡ uri = ground (arith, e) in
          let no_more : find (λ x. x.token_uri == uri) cs ≡ none = rw same at (h.0) in
          ground (arith, ih, no_more, e)
      | inr e ↦ ground (arith, ih, e)
    ]

find-filter {ℓ} :
    {A : Type ℓ} (p q : A → Bool) (xs : List A) → find p (filter q xs) ≡ find (λ x. q x && p x) xs
find-filter p q [] = refl
find-filter p q (x ∷ xs) = ground (arith, find-filter p q xs)

-- A uri of the tokens is not filtered out.
find-listed :
    (tokens : List ContractToken) (type : Option CardType) (uri : ℕ) (cs : List Card)
    → any (λ t. t.uri == uri) tokens ≡ true
    → find (λ c. is_listed tokens type c && (c.token_uri == uri)) cs
      ≡ find (λ c. has_type type c && (c.token_uri == uri)) cs
find-listed tokens type uri [] h = refl
find-listed tokens type uri (c ∷ cs) h = elim (Bool-cases (c.token_uri == uri)) [
  | inl e ↦
      let same : c.token_uri ≡ uri = ground (arith, e) in
      let listed : any (λ t. t.uri == c.token_uri) tokens ≡ true = rw same h in
      ground (arith, listed, find-listed tokens type uri cs h)
  | inr e ↦ ground (arith, e, find-listed tokens type uri cs h)
]

abbrev or_none : Option Card → Option Card
or_none o = elim o [ none ↦ none | some c ↦ some c ]

or_none_lem : (o : Option Card) → or_none o ≡ o
or_none_lem none = refl
or_none_lem (some c) = refl

-- The tokens that are joined are among all tokens.
with_cards-joined :
    (tokens : List ContractToken) (type : Option CardType) (cards : List Card) (hex : ℕ → ℕ)
    (ts : List ContractToken)
    → UniqueUris cards
    → All (λ t. any (λ x. x.uri == t.uri) tokens ≡ true) ts
    → with_cards (cards_by_uri (λ uri. none) (filter (is_listed tokens type) cards)) ts hex
      ≡ joined type cards hex ts
with_cards-joined tokens type cards hex [] h a = refl
with_cards-joined tokens type cards hex (t ∷ ts) h a =
    let found =
      cards_by_uri-find (λ uri. none) (filter (is_listed tokens type) cards) t.uri
        (UniqueUris-filter (is_listed tokens type) cards h) in
    let filtered = find-filter (λ c. c.token_uri == t.uri) (is_listed tokens type) cards in
    let kept = find-listed tokens type t.uri cards a.0 in
    let card : cards_by_uri (λ uri. none) (filter (is_listed tokens type) cards) t.uri
        ≡ card_of type cards t =
      found ∙ ap or_none (filtered ∙ kept) ∙ or_none_lem (card_of type cards t) in
    let rest =
      with_cards (cards_by_uri (λ uri. none) (filter (is_listed tokens type) cards)) ts hex in
    ap (λ o. keep_token o (hex t.id) rest) card
    ∙ ap (keep_token (card_of type cards t) (hex t.id))
        (with_cards-joined tokens type cards hex ts h a.1)

any-cons :
    (x : ContractToken) (tokens ts : List ContractToken)
    → All (λ t. any (λ y. y.uri == t.uri) tokens ≡ true) ts
    → All (λ t. any (λ y. y.uri == t.uri) (x ∷ tokens) ≡ true) ts
any-cons x tokens [] h = tt
any-cons x tokens (t ∷ ts) h = (ground (arith, h.0), any-cons x tokens ts h.1)

among-All : (ts : List ContractToken) → All (λ t. any (λ y. y.uri == t.uri) ts ≡ true) ts
among-All [] = tt
among-All (t ∷ ts) = (ground (arith, ==_refl t.uri), any-cons t ts ts (among-All ts))

module _ {S : Type 0} (model : Collection S Card) (hex : ℕ → ℕ) where
  -- Where no two stored cards share a uri: every token, in the order of the tokens, is joined with
  -- the card of its uri and of the asked type, and a token without such a card is left out.
  pub get_card_tokens_from_token-joined :
      (tokens : List ContractToken) (type : Option CardType) (s : S)
      → UniqueUris (model.docs s)
      → get_card_tokens_from_token model hex tokens type s ≡ joined type (model.docs s) hex tokens
  unfolding get_card_tokens_from_token
  get_card_tokens_from_token-joined tokens type s h =
      rw model.find_many_lem
        (with_cards-joined tokens type (model.docs s) hex tokens h (among-All tokens))

any-set_of : (x : ℕ) (xs : List ℕ) → any (λ y. y == x) (set_of xs) ≡ any (λ y. y == x) xs
any-set_of x [] = refl
any-set_of x (y ∷ ys) = elim (Bool-cases (y == x)) [
  | inl e ↦ let same : y ≡ x = ground (arith, e) in rw same (ground (arith, any-set_of x ys))
  | inr e ↦ ground (arith, e, any-set_of x ys)
]

only_one :
    (x y : ℕ) (xs : List ℕ)
    → length xs ≡ 1
    → any (λ z. z == x) xs ≡ true
    → any (λ z. z == y) xs ≡ true
    → y ≡ x
only_one x y [] l h k = absurd (omega arith)
only_one x y (z ∷ []) l h k = ground arith
only_one x y (z ∷ w ∷ xs) l h k = absurd (omega arith)

All-any :
    (x : ℕ) (xs : List ℕ) → ((y : ℕ) → any (λ z. z == y) xs ≡ true → y ≡ x) → All (λ y. y ≡ x) xs
All-any x [] h = tt
All-any x (y ∷ ys) h =
    (h y (ground (arith, ==_refl y)), All-any x ys (λ z k. h z (ground (arith, k))))

set_of_equal : (x : ℕ) (xs : List ℕ) → All (λ y. y ≡ x) xs → (set_of xs ≡ []) ⊎ (set_of xs ≡ x ∷ [])
set_of_equal x [] h = inl refl
set_of_equal x (y ∷ ys) h = elim (set_of_equal x ys h.1) [
  | inl e ↦ inr (rw (e, h.0) refl)
  | inr e ↦ inr (rw (e, h.0) (ground (arith, ==_refl x)))
]

-- The strings are all equal, and there is one at least, exactly when their set has one element.
pub all_strings_equal_lem :
    (x : ℕ) (xs : List ℕ)
    → (all_strings_equal [] ≡ false) × ((all_strings_equal (x ∷ xs) ≡ true) ↔ All (λ y. y ≡ x) xs)
unfolding all_strings_equal
all_strings_equal_lem x xs =
    let here : any (λ z. z == x) (set_of (x ∷ xs)) ≡ true =
      any-set_of x (x ∷ xs) ∙ ground (arith, ==_refl x) in
    (
      refl,
      (
        (λ h. All-any x xs λ y k.
            only_one x y (set_of (x ∷ xs)) (ground (arith, h)) here
              (any-set_of y (x ∷ xs) ∙ ground (arith, k))),
        (λ h. elim (set_of_equal x (x ∷ xs) (refl, h)) [
          | inl e ↦ let bad : false ≡ true = rw e at here in cc
          | inr e ↦ rw e refl
        ]),
      ),
    )
