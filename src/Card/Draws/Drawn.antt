-- ===== src/Card/Draws/Drawn.antt =====
-- The cards that `getRandomCardsWithRandomValue` returns, however many draws it took.
use zombiies_api.Common.{
  ℕ, zero, suc, ◌≤◌, ◌≡◌, subst, inl, inr, Option, some, [], ◌∷◌, ltb, length, All, All-append,
  arith, Bool-cases, Option-cases,
}
use zombiies_api.Card.Schema.{Card}
use zombiies_api.Card.Draws.{Draws, draw_once, draw_cards}

some-injective : {a b : Draws} → some a ≡ some b → a ≡ b
some-injective e = cc

module _ (find_card : ℕ → Option Card) (values : ℕ → ℕ) where
  -- A card that some drawn number finds.
  abbrev pub IsDrawn : Card → Type 0
  IsDrawn c = (value : ℕ) × (find_card value ≡ some c)

  draw_once-IsDrawn :
      (value : ℕ) (d : Draws)
      → All IsDrawn d.cards
      → All IsDrawn (draw_once find_card value d).cards
  draw_once-IsDrawn value d h = elim (Option-cases (find_card value)) [
    | inl e ↦ rw e h
    | inr (c, e) ↦ rw e (All-append IsDrawn d.cards (c ∷ []) h ((value, e), tt))
  ]

  pub draw_cards-IsDrawn :
      (fuel count k : ℕ) (d out : Draws)
      → All IsDrawn d.cards
      → draw_cards fuel find_card values count k d ≡ some out
      → All IsDrawn out.cards × (count ≤ length out.cards)
  unfolding draw_cards
  draw_cards-IsDrawn zero count k d out h e = absurd cc
  draw_cards-IsDrawn (suc fuel) count k d out h e =
      let next = draw_once find_card (values k) d in
      let drawn = draw_once-IsDrawn (values k) d h in
      elim (Bool-cases (ltb (length next.cards) count)) [
        | inl more ↦ draw_cards-IsDrawn fuel count (suc k) next out drawn (rw more at e)
        | inr done ↦
            let same : next ≡ out = some-injective (rw done at e) in
            subst (λ o. All IsDrawn o.cards × (count ≤ length o.cards)) same (drawn, ground arith)
      ]
