-- ===== src/Deck/Slots/Order.antt =====
-- Sorting the cards of a deck by position.
use zombiies_api.Common.{
  ℕ, suc, ◌≤◌, ◌<◌, ◌≡◌, refl, ◌∙◌, Bool, false, ◌||◌, List, [], ◌∷◌, ◌++◌, ◌==◌, any, arith,
}
use zombiies_api.Deck.Model.{DeckCard}
use zombiies_api.Deck.Slots.{has_token, insert_card, sort_cards}

-- The cards stand in ascending order of position, from a bound on, and below 16.
abbrev pub Ascending : ℕ → List DeckCard → Type 0
Ascending lo [] = Unit
Ascending lo (c ∷ cs) = (lo ≤ c.position) × (c.position < 16) × Ascending (suc c.position) cs

abbrev pub at_slot : ℕ → DeckCard → Bool
at_slot p c = c.position == p

abbrev pub DistinctSlots : List DeckCard → Type 0
DistinctSlots [] = Unit
DistinctSlots (c ∷ cs) =
    (c.position < 16) × (any (at_slot c.position) cs ≡ false) × DistinctSlots cs

abbrev pub DistinctTokens : List DeckCard → Type 0
DistinctTokens [] = Unit
DistinctTokens (c ∷ cs) = (any (has_token c.token_id) cs ≡ false) × DistinctTokens cs

Ascending-mono : (lo hi : ℕ) (cs : List DeckCard) → lo ≤ hi → Ascending hi cs → Ascending lo cs
Ascending-mono lo hi [] h a = tt
Ascending-mono lo hi (c ∷ cs) h a = (omega arith, a.1, a.2)

pub any-Ascending :
    (lo p : ℕ) (cs : List DeckCard) → Ascending lo cs → p < lo → any (at_slot p) cs ≡ false
any-Ascending lo p [] a h = refl
any-Ascending lo p (c ∷ cs) a h = ground (arith, any-Ascending (suc c.position) p cs a.2)

pub Ascending-DistinctSlots : (lo : ℕ) (cs : List DeckCard) → Ascending lo cs → DistinctSlots cs
Ascending-DistinctSlots lo [] a = tt
Ascending-DistinctSlots lo (c ∷ cs) a = (
  a.1,
  any-Ascending (suc c.position) c.position cs a.2 (omega arith),
  Ascending-DistinctSlots (suc c.position) cs a.2,
)

insert_card-Ascending :
    (lo : ℕ) (x : DeckCard) (cs : List DeckCard)
    → lo ≤ x.position
    → x.position < 16
    → any (at_slot x.position) cs ≡ false
    → Ascending lo cs
    → Ascending lo (insert_card x cs)
insert_card-Ascending lo x [] l u n a = (l, u, tt)
insert_card-Ascending lo x (c ∷ cs) l u n a = ground (
  arith,
  insert_card-Ascending (suc c.position) x cs,
  Ascending-mono (suc x.position) (suc c.position) cs,
)

-- Which cards there are does not depend on the order.
pub any-insert_card :
    (p : DeckCard → Bool) (x : DeckCard) (cs : List DeckCard)
    → any p (insert_card x cs) ≡ (p x || any p cs)
any-insert_card p x [] = ground arith
any-insert_card p x (c ∷ cs) = ground (arith, any-insert_card p x cs)

pub any-sort_cards : (p : DeckCard → Bool) (cs : List DeckCard) → any p (sort_cards cs) ≡ any p cs
any-sort_cards p [] = refl
any-sort_cards p (c ∷ cs) = ground (arith, any-insert_card p c (sort_cards cs), any-sort_cards p cs)

pub sort_cards-Ascending : (cs : List DeckCard) → DistinctSlots cs → Ascending 0 (sort_cards cs)
sort_cards-Ascending [] d = tt
sort_cards-Ascending (c ∷ cs) d =
    insert_card-Ascending 0 c (sort_cards cs) (omega arith) d.0
      (any-sort_cards (at_slot c.position) cs ∙ d.1) (sort_cards-Ascending cs d.2)

insert_card-DistinctTokens :
    (x : DeckCard) (cs : List DeckCard)
    → any (has_token x.token_id) cs ≡ false
    → DistinctTokens cs
    → DistinctTokens (insert_card x cs)
insert_card-DistinctTokens x [] n d = (refl, tt)
insert_card-DistinctTokens x (c ∷ cs) n d =
    ground (arith, insert_card-DistinctTokens x cs, any-insert_card (has_token c.token_id) x cs)

pub sort_cards-DistinctTokens :
    (cs : List DeckCard) → DistinctTokens cs → DistinctTokens (sort_cards cs)
sort_cards-DistinctTokens [] d = tt
sort_cards-DistinctTokens (c ∷ cs) d =
    insert_card-DistinctTokens c (sort_cards cs) (any-sort_cards (has_token c.token_id) cs ∙ d.0)
      (sort_cards-DistinctTokens cs d.1)

pub any-append :
    (p : DeckCard → Bool) (xs ys : List DeckCard) → any p (xs ++ ys) ≡ (any p xs || any p ys)
any-append p [] ys = refl
any-append p (x ∷ xs) ys = ground (arith, any-append p xs ys)

pub DistinctSlots-append :
    (cs : List DeckCard) (x : DeckCard)
    → DistinctSlots cs
    → x.position < 16
    → any (at_slot x.position) cs ≡ false
    → DistinctSlots (cs ++ x ∷ [])
DistinctSlots-append [] x d u n = (u, refl, tt)
DistinctSlots-append (c ∷ cs) x d u n =
    ground (arith, DistinctSlots-append cs x d.2 u, any-append (at_slot c.position) cs (x ∷ []))

pub DistinctTokens-append :
    (cs : List DeckCard) (x : DeckCard)
    → DistinctTokens cs
    → any (has_token x.token_id) cs ≡ false
    → DistinctTokens (cs ++ x ∷ [])
DistinctTokens-append [] x d n = (refl, tt)
DistinctTokens-append (c ∷ cs) x d n =
    ground (arith, DistinctTokens-append cs x d.1, any-append (has_token c.token_id) cs (x ∷ []))
