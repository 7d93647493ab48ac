-- ===== src/Card/Draws/Ends.antt =====
-- When the loop of `getRandomCardsWithRandomValue` ends, and what it has drawn then.
use mathlib.Core.List.{append-nil, append_assoc}
use zombiies_api.Common.{
  ℕ, zero, suc, ◌+◌, ◌≤◌, ◌<◌, ◌≡◌, refl, sym, ap, ◌∙◌, inl, inr, Option, none, some, List, [], ◌∷◌,
  ◌++◌, ltb, length, length-append, is_some, arith, Bool-cases,
}
use zombiies_api.Card.Schema.{Card}
use zombiies_api.Card.Draws.{Draw, Draws, push_card, draw_once, draw_cards}

abbrev one : Option Card → List Card
one none = []
one (some c) = c ∷ []

push_card-one : (o : Option Card) (cards : List Card) → push_card o cards ≡ cards ++ one o
push_card-one none cards = sym (append-nil cards)
push_card-one (some c) cards = refl

add_zero : (k : ℕ) → k + 0 ≡ k
add_zero k = omega arith

module _ (find_card : ℕ → Option Card) (values : ℕ → ℕ) where
  -- The cards of `n` draws from the `k`-th on, and the draws themselves.
  abbrev pub hit_cards : ℕ → ℕ → List Card
  hit_cards k zero = []
  hit_cards k (suc n) = one (find_card (values k)) ++ hit_cards (suc k) n

  abbrev pub draw_list : ℕ → ℕ → List Draw
  draw_list k zero = []
  draw_list k (suc n) =
      record { value = values k; take = is_some (find_card (values k)) } ∷ draw_list (suc k) n

  -- `n` draws are enough, and no fewer are.
  pub record IsFirst (count k n : ℕ) (d : Draws) : Type 0 where
    pub some_draw : 0 < n
    pub enough : count ≤ length d.cards + length (hit_cards k n)
    pub too_few : (j : ℕ) → 0 < j → j < n → length d.cards + length (hit_cards k j) < count

  abbrev pub extend : ℕ → ℕ → Draws → Draws
  extend k n d = record { randoms = d.randoms ++ draw_list k n; cards = d.cards ++ hit_cards k n }

  extend-draw_once :
      (k n : ℕ) (d : Draws)
      → extend (suc k) n (draw_once find_card (values k) d) ≡ extend k (suc n) d
  extend-draw_once k n d = simp (append_assoc, push_card-one)

  length-draw_once :
      (k n : ℕ) (d : Draws)
      → length (draw_once find_card (values k) d).cards + length (hit_cards (suc k) n)
        ≡ length d.cards + length (hit_cards k (suc n))
  length-draw_once k n d = omega (
    arith,
    ap length (push_card-one (find_card (values k)) d.cards),
    length-append d.cards (one (find_card (values k))),
    length-append (one (find_card (values k))) (hit_cards (suc k) n),
  )

  extend-zero : (k : ℕ) (d : Draws) → extend k 0 d ≡ d
  extend-zero k d = simp append-nil

  -- The loop stops after one round.
  stop :
      (count k : ℕ) (d : Draws)
      → count ≤ length (draw_once find_card (values k) d).cards
      → IsFirst count k 1 d × (draw_once find_card (values k) d ≡ extend k 1 d)
  stop count k d h = (
    record {
      some_draw = omega arith;
      enough = omega (arith, length-draw_once k 0 d);
      too_few = λ j p q. absurd (omega arith);
    },
    sym (extend-zero (suc k) (draw_once find_card (values k) d)) ∙ extend-draw_once k 0 d,
  )

  -- The loop goes on after one round.
  go_on :
      (count k n : ℕ) (d : Draws)
      → length (draw_once find_card (values k) d).cards < count
      → IsFirst count (suc k) n (draw_once find_card (values k) d)
      → IsFirst count k (suc n) d
  go_on count k n d h i = record {
    some_draw = omega arith;
    enough = omega (arith, i.enough, length-draw_once k n d);
    too_few = before;
  }
    where
      before : (j : ℕ) → 0 < j → j < suc n → length d.cards + length (hit_cards k j) < count
      before zero p q = absurd (omega arith)
      before (suc zero) p q = omega (arith, length-draw_once k 0 d)
      before (suc (suc j)) p q = omega (arith, i.too_few (suc j), length-draw_once k (suc j) d)

  -- The loop ends as soon as fuel allows the draws that give `count` cards; it has then made the
  -- least number of draws, at least one, that give them.
  pub draw_cards-IsFirst :
      (count fuel n k : ℕ) (d : Draws)
      → 0 < n
      → n ≤ fuel
      → count ≤ length d.cards + length (hit_cards k n)
      → (m : ℕ) × (m ≤ n)
        × IsFirst count k m d
        × (draw_cards fuel find_card values count k d ≡ some (extend k m d))
  unfolding draw_cards
  draw_cards-IsFirst count fuel zero k d p h e = absurd (omega arith)
  draw_cards-IsFirst count zero (suc n) k d p h e = absurd (omega arith)
  draw_cards-IsFirst count (suc fuel) (suc zero) k d p h e =
      let enough : count ≤ length (draw_once find_card (values k) d).cards =
        omega (arith, length-draw_once k 0 d) in
      let (first, same) = stop count k d enough in (1, omega arith, first, ground (arith, same))
  draw_cards-IsFirst count (suc fuel) (suc (suc n)) k d p h e =
      elim (Bool-cases (ltb (length (draw_once find_card (values k) d).cards) count)) [
        | inr done ↦
            let (first, same) = stop count k d (ground arith) in
            (1, omega arith, first, rw done (ap some same))
        | inl more ↦
            let (m, le, first, result) =
              draw_cards-IsFirst count fuel (suc n) (suc k) (draw_once find_card (values k) d)
                (omega arith) (omega arith) (omega (arith, length-draw_once k (suc n) d)) in
            (
              suc m,
              omega arith,
              go_on count k m d (ground arith) first,
              rw more (result ∙ ap some (extend-draw_once k m d)),
            )
      ]

  -- If no draw from the `k`-th on gives a card, the loop runs on whatever the fuel.
  pub draw_cards-endless :
      (count fuel k : ℕ) (d : Draws)
      → ((j : ℕ) → find_card (values (k + j)) ≡ none)
      → length d.cards < count
      → draw_cards fuel find_card values count k d ≡ none
  unfolding draw_cards
  draw_cards-endless count zero k d h l = refl
  draw_cards-endless count (suc fuel) k d h l =
      let miss : find_card (values k) ≡ none = rw (add_zero k) at (h 0) in
      ground (
        arith,
        miss,
        draw_cards-endless count fuel (suc k) (draw_once find_card (values k) d)
            (λ j. let same : k + suc j ≡ suc k + j = omega arith in rw same at (h (suc j))),
      )
