-- ===== src/Deck/Slots/Valid.antt =====
-- A deck stays valid: at most one card to a slot and to a token, the slots in order.
use zombiies_api.Common.{
  ℕ, suc, ◌≤◌, ◌<◌, ◌≡◌, ◌≢◌, refl, sym, ◌∙◌, inl, inr, Bool, true, false, not, ◌||◌, Option, none,
  some, List, [], ◌∷◌, ◌++◌, is_some, length, find, any, filter, arith, Option-cases, ok, err,
  is_ok, bad_request, subst,
}
use zombiies_api.Card.Model.{CardType, is_monster}
use zombiies_api.Deck.Model.{DeckCard}
use zombiies_api.Deck.Slots.{
  has_token, on_side, existed_position, new_position, sort_cards, add_card, remove_card,
}
use zombiies_api.Deck.Slots.Order.{
  Ascending, DistinctTokens, at_slot, Ascending-DistinctSlots, sort_cards-Ascending,
  sort_cards-DistinctTokens, any-sort_cards, any-append, DistinctSlots-append,
  DistinctTokens-append,
}
use zombiies_api.Deck.Slots.Free.{existed_position-le, new_position-free, new_position-total}

pub record IsValid (cards : List DeckCard) : Type 0 where
  pub slots : Ascending 0 cards
  pub tokens : DistinctTokens cards

any-find : (p : DeckCard → Bool) (cs : List DeckCard) → is_some (find p cs) ≡ any p cs
any-find p [] = refl
any-find p (c ∷ cs) = ground (arith, any-find p cs)

-- What an accepted card changes: it takes a free slot of its side, and the deck has the cards that it
-- had and the new one.
pub record IsAdded (token_id : ℕ) (type : CardType) (cards after : List DeckCard) (position : ℕ)
    : Type 0 where
  pub in_range : position < 16
  pub side : on_side (is_monster type) position ≡ true
  pub was_free : any (at_slot position) cards ≡ false
  pub was_new : any (has_token token_id) cards ≡ false
  pub contents :
      (p : DeckCard → Bool)
      → any p after ≡ (any p cards || p (record { position = position; token_id = token_id }))

abbrev added : ℕ → ℕ → List DeckCard → List DeckCard
added token_id position cards =
    sort_cards (cards ++ record { position = position; token_id = token_id } ∷ [])

add_card-parts :
    (token_id : ℕ) (type : CardType) (cards after : List DeckCard)
    → add_card token_id (some type) cards ≡ ok after
    → (position : ℕ) × (new_position (is_monster type) (existed_position (is_monster type) cards)
        ≡ some position)
      × (any (has_token token_id) cards ≡ false)
      × (after ≡ added token_id position cards)
unfolding add_card
add_card-parts token_id type cards after h =
    elim (Option-cases
      (new_position (is_monster type) (existed_position (is_monster type) cards))) [
        | inl n ↦ absurd (ground (arith, h, n))
        | inr (p, f) ↦
            (p, f, ground (arith, h, any-find (has_token token_id) cards), ground (arith, h, f))
      ]

-- A card that is added to a valid deck leaves a valid deck, in which it has a slot of its side that
-- was free, and all the other cards are still there.
add_card-IsValid :
    (token_id : ℕ) (type : CardType) (cards after : List DeckCard)
    → IsValid cards
    → add_card token_id (some type) cards ≡ ok after
    → IsValid after × ((position : ℕ) × IsAdded token_id type cards after position)
add_card-IsValid token_id type cards after v h =
    let (position, f, new, e) = add_card-parts token_id type cards after h in
    let (low, ours, free) = new_position-free (is_monster type) cards {p = position} f in
    let x : DeckCard = record { position = position; token_id = token_id } in
    let valid : IsValid (added token_id position cards) = record {
      slots =
          sort_cards-Ascending (cards ++ x ∷ [])
            (DistinctSlots-append cards x (Ascending-DistinctSlots 0 cards v.slots) low free);
      tokens =
          sort_cards-DistinctTokens (cards ++ x ∷ []) (DistinctTokens-append cards x v.tokens new);
    } in
    let holds : IsAdded token_id type cards (added token_id position cards) position = record {
      in_range = low;
      side = ours;
      was_free = free;
      was_new = new;
      contents =
          λ p. any-sort_cards p (cards ++ x ∷ []) ∙ any-append p cards (x ∷ []) ∙ or_one p cards x;
    } in
    (
      subst IsValid (sym e) valid,
      (
        position,
        subst (λ (a : List DeckCard). IsAdded token_id type cards a position) (sym e) holds,
      ),
    )
  where
    or_one :
        (p : DeckCard → Bool) (cs : List DeckCard) (y : DeckCard)
        → (any p cs || any p (y ∷ [])) ≡ (any p cs || p y)
    or_one p cs y = ground arith

-- To a valid deck a card is added exactly when its token is not in the deck yet and its side does not
-- have 8 cards; a token in the deck and a full side are refused with their own messages.
add_card-total :
    (token_id : ℕ) (type : CardType) (cards : List DeckCard)
    → IsValid cards
    → let count = length (existed_position (is_monster type) cards) in
      (any (has_token token_id) cards ≡ true
        → add_card token_id (some type) cards
          ≡ err (bad_request "This card have already added to this deck"))
      × (any (has_token token_id) cards ≡ false
          → count ≡ 8
          → add_card token_id (some type) cards ≡ err (bad_request "Your deck is full"))
      × (any (has_token token_id) cards ≡ false
          → count ≢ 8
          → is_ok (add_card token_id (some type) cards) ≡ true)
unfolding add_card
add_card-total token_id type cards v =
    let found = any-find (has_token token_id) cards in
    (
      λ t. ground (arith, t, found),
      λ t c. ground (arith, t, c, found),
      λ t c.
          let few = existed_position-le (is_monster type) cards v.slots in
          let (p, f) =
            new_position-total (is_monster type) (existed_position (is_monster type) cards)
              (omega (arith, few, c)) in
          ground (arith, t, c, found, f),
    )

Ascending-remove :
    (t lo : ℕ) (cs : List DeckCard)
    → Ascending lo cs
    → Ascending lo (filter (λ c. not (has_token t c)) cs)
Ascending-remove t lo [] a = tt
Ascending-remove t lo (c ∷ cs) a = ground (
  arith,
  Ascending-remove t (suc c.position) cs a.2,
  Ascending-weaken lo (suc c.position) (filter (λ d. not (has_token t d)) cs),
)
  where
    Ascending-weaken : (l h : ℕ) (ds : List DeckCard) → l ≤ h → Ascending h ds → Ascending l ds
    Ascending-weaken l h [] k b = tt
    Ascending-weaken l h (d ∷ ds) k b = (omega arith, b.1, b.2)

any-remove_ne :
    (t : ℕ) (p : DeckCard → Bool) (cs : List DeckCard)
    → any p cs ≡ false
    → any p (filter (λ c. not (has_token t c)) cs) ≡ false
any-remove_ne t p [] h = refl
any-remove_ne t p (c ∷ cs) h = ground (arith, any-remove_ne t p cs)

DistinctTokens-remove :
    (t : ℕ) (cs : List DeckCard)
    → DistinctTokens cs
    → DistinctTokens (filter (λ c. not (has_token t c)) cs)
DistinctTokens-remove t [] d = tt
DistinctTokens-remove t (c ∷ cs) d =
    ground (arith, DistinctTokens-remove t cs d.1, any-remove_ne t (has_token c.token_id) cs d.0)

any-remove_self :
    (t : ℕ) (cs : List DeckCard) → any (has_token t) (filter (λ c. not (has_token t c)) cs) ≡ false
any-remove_self t [] = refl
any-remove_self t (c ∷ cs) = ground (arith, any-remove_self t cs)

any-remove_other :
    (t k : ℕ) (cs : List DeckCard)
    → k ≢ t
    → any (has_token k) (filter (λ c. not (has_token t c)) cs) ≡ any (has_token k) cs
any-remove_other t k [] ne = refl
any-remove_other t k (c ∷ cs) ne = ground (arith, any-remove_other t k cs ne)

-- Removing a token from a valid deck leaves a valid deck without the token and with every other one.
pub remove_card-IsValid :
    (token_id : ℕ) (cards : List DeckCard)
    → IsValid cards
    → let after = remove_card token_id cards in
      IsValid after
      × (any (has_token token_id) after ≡ false)
      × ((k : ℕ) → k ≢ token_id → any (has_token k) after ≡ any (has_token k) cards)
unfolding remove_card
remove_card-IsValid token_id cards v = (
  record {
    slots = Ascending-remove token_id 0 cards v.slots;
    tokens = DistinctTokens-remove token_id cards v.tokens;
  },
  any-remove_self token_id cards,
  λ k ne. any-remove_other token_id k cards ne,
)

pub add_card-IsValid_any :
    (token_id : ℕ) (type : Option CardType) (cards after : List DeckCard)
    → IsValid cards
    → add_card token_id type cards ≡ ok after
    → IsValid after
unfolding add_card
add_card-IsValid_any token_id none cards after v h = absurd (ground (arith, h))
add_card-IsValid_any token_id (some type) cards after v h =
    (add_card-IsValid token_id type cards after v h).0
