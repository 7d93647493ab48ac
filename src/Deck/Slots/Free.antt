-- ===== src/Deck/Slots/Free.antt =====
-- Whether a side of the deck has a free slot.
use zombiies_api.Common.{
  ℕ, zero, suc, ◌+◌, ◌≤◌, ◌<◌, ◌≡◌, ◌≢◌, refl, sym, ◌∙◌, inl, inr, Bool, true, false, not, none,
  some, List, [], ◌∷◌, ltb, leb, ◌==◌, length, find, find_holds, any, filter, arith, Bool-cases,
  Option-cases, length-filter-le,
}
use zombiies_api.Deck.Model.{DeckCard}
use zombiies_api.Deck.Slots.{includes, on_side, existed_position, slots, first_slot, new_position}
use zombiies_api.Deck.Slots.Order.{Ascending, at_slot}

abbrev taken : List ℕ → ℕ → Bool
taken existed p = not (includes p existed)

abbrev removed : ℕ → List ℕ → List ℕ
removed b = filter (λ x. not (x == b))

includes-removed : (p b : ℕ) (xs : List ℕ) → p ≢ b → includes p (removed b xs) ≡ includes p xs
includes-removed p b [] ne = refl
includes-removed p b (x ∷ xs) ne = ground (arith, includes-removed p b xs ne)

length-removed :
    (b : ℕ) (xs : List ℕ) → includes b xs ≡ true → length (removed b xs) + 1 ≤ length xs
length-removed b [] h = cc
length-removed b (x ∷ xs) h =
    ground (arith, length-removed b xs, length-filter-le (λ y. not (y == b)) xs)

all_taken-removed :
    (b c n : ℕ) (xs : List ℕ)
    → b < c
    → find (taken xs) (slots c n) ≡ none
    → find (taken (removed b xs)) (slots c n) ≡ none
all_taken-removed b c zero xs l h = refl
all_taken-removed b c (suc n) xs l h =
    ground (arith, includes-removed c b xs, all_taken-removed b (suc c) n xs)

-- If all of n slots are taken there are at least n positions.
slots_taken : (b n : ℕ) (xs : List ℕ) → find (taken xs) (slots b n) ≡ none → n ≤ length xs
slots_taken b zero xs h = omega arith
slots_taken b (suc n) xs h = ground (
  arith,
  length-removed b xs,
  all_taken-removed b (suc b) n xs,
  slots_taken (suc b) n (removed b xs),
)

find-slots-ge :
    (q : ℕ → Bool) (b n : ℕ) {p : ℕ} → find q (slots b n) ≡ some p → (b ≤ p) × (p < b + n)
find-slots-ge q b zero h = cc
find-slots-ge q b (suc n) {p} h = elim (Bool-cases (q b)) [
  | inl e ↦ let same : b ≡ p = ground (arith, h, e) in (omega arith, omega arith)
  | inr e ↦
      let more = find-slots-ge q (suc b) n {p = p} (rw e at h) in
      (omega (arith, more.0), omega (arith, more.1))
]

-- In a side of ascending positions at most 8 are taken.
monsters-le :
    (lo : ℕ) (cs : List DeckCard)
    → Ascending lo cs
    → lo ≤ 8
    → length (existed_position true cs) + lo ≤ 8
monsters-le lo [] a h = omega arith
monsters-le lo (c ∷ cs) a h = elim (Bool-cases (ltb c.position 8)) [
  | inl e ↦ rw e (omega (arith, a.0, monsters-le (suc c.position) cs a.2 (ground (arith, e))))
  | inr e ↦ rw e (no_monsters (suc c.position) cs a.2 (ground (arith, e)))
]
  where
    no_monsters :
        (l : ℕ) (ds : List DeckCard)
        → Ascending l ds
        → 8 < l
        → length (existed_position true ds) + lo ≤ 8
    no_monsters l [] b k = omega arith
    no_monsters l (d ∷ ds) b k = ground (arith, no_monsters (suc d.position) ds b.2)

equipment-le :
    (lo : ℕ) (cs : List DeckCard)
    → Ascending lo cs
    → 8 ≤ lo
    → lo ≤ 16
    → length (existed_position false cs) + lo ≤ 16
equipment-le lo [] a h k = omega arith
equipment-le lo (c ∷ cs) a h k = ground (arith, equipment-le (suc c.position) cs a.2)

equipment_all-le :
    (lo : ℕ) (cs : List DeckCard) → Ascending lo cs → length (existed_position false cs) ≤ 8
equipment_all-le lo [] a = omega arith
equipment_all-le lo (c ∷ cs) a = elim (Bool-cases (leb 8 c.position)) [
  | inl e ↦ rw e (
      omega (
        arith,
        equipment-le (suc c.position) cs a.2 (ground (arith, e)) (omega (arith, a.1)),
        leb_ge c.position e,
      ))
  | inr e ↦ rw e (equipment_all-le (suc c.position) cs a.2)
]
  where
    leb_ge : (p : ℕ) → leb 8 p ≡ true → 8 ≤ p
    leb_ge p e = ground arith

pub existed_position-le :
    (side : Bool) (cs : List DeckCard) → Ascending 0 cs → length (existed_position side cs) ≤ 8
existed_position-le true cs a = omega (arith, monsters-le 0 cs a (omega arith))
existed_position-le false cs a = equipment_all-le 0 cs a

includes-existed :
    (side : Bool) (p : ℕ) (cs : List DeckCard)
    → on_side side p ≡ true
    → includes p (existed_position side cs) ≡ any (at_slot p) cs
includes-existed side p [] h = refl
includes-existed side p (c ∷ cs) h = elim (Bool-cases (on_side side c.position)) [
  | inl e ↦ rw e (ground (arith, includes-existed side p cs h))
  | inr e ↦ rw e (includes-existed side p cs h ∙ sym (skip (other c.position side h e)))
]
  where
    other : (q : ℕ) (s : Bool) → on_side s p ≡ true → on_side s q ≡ false → (q == p) ≡ false
    other q true h e = ground arith
    other q false h e = ground arith

    skip : (c.position == p) ≡ false → any (at_slot p) (c ∷ cs) ≡ any (at_slot p) cs
    skip e = rw e

-- The position found is a slot of the card's side that no card has.
pub new_position-free :
    (side : Bool) (cs : List DeckCard) {p : ℕ}
    → new_position side (existed_position side cs) ≡ some p
    → (p < 16) × (on_side side p ≡ true) × (any (at_slot p) cs ≡ false)
unfolding new_position
new_position-free side cs {p} h =
    let free =
      find_holds (taken (existed_position side cs)) (slots (first_slot side) 8) {a = p} h in
    let range = find-slots-ge (taken (existed_position side cs)) (first_slot side) 8 {p = p} h in
    let (low, ours) = in_side side p range.0 range.1 in
    (low, ours, ground (arith, free, includes-existed side p cs ours))
  where
    in_side :
        (s : Bool) (q : ℕ)
        → first_slot s ≤ q
        → q < first_slot s + 8
        → (q < 16) × (on_side s q ≡ true)
    in_side true q a b = ground arith
    in_side false q a b = ground arith

-- With fewer than 8 positions taken a slot is found.
pub new_position-total :
    (side : Bool) (existed : List ℕ)
    → length existed < 8
    → (p : ℕ) × (new_position side existed ≡ some p)
unfolding new_position
new_position-total side existed h =
    elim (Option-cases (find (taken existed) (slots (first_slot side) 8))) [
      | inl n ↦ absurd (omega (arith, slots_taken (first_slot side) 8 existed n))
      | inr found ↦ found
    ]
