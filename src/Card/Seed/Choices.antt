-- ===== src/Card/Seed/Choices.antt =====
-- The card that a round of `seedToken` of src/common/command/seed.command.ts chooses.
use zombiies_api.Common.{
  ℕ, suc, ◌≤◌, ◌≡◌, refl, inl, inr, ◌⊎◌, Option, none, some, List, [], ◌∷◌, ◌==◌, Result, ok, err,
  Error, length, All, arith, Result-cases, Option-cases,
}
use zombiies_api.Card.Model.{elite, CardType}
use zombiies_api.Card.Schema.{Card}
use zombiies_api.Card.Draws.{Draws, fits, draw_cards, no_draws}
use zombiies_api.Card.Draws.Drawn.{draw_cards-IsDrawn, IsDrawn}
use zombiies_api.Card.Service.{CardEnv, World, head_of, get_max_card_seed}
use zombiies_api.Card.Service.History.{history}
use zombiies_api.Card.Mint.{get_random_cards, finish, awarded, draw_from}
use zombiies_api.Card.Seed.{Choice, token_not_found, chosen, choose}

module _ {S U C : Type 0} (env : CardEnv S U C) where
  open env use {card_model, user_model, client}

  -- The card that the uri names, or one of at most level 8 and any rarity that some number draws.
  abbrev pub IsChosen : Option ℕ → S → Card → Type 0
  IsChosen (some uri) s c = card_model.find_one (λ c. c.token_uri == uri) s ≡ some c
  IsChosen none s c =
      (type : CardType) × (value : ℕ) × (card_model.find_one (fits 8 elite type value) s ≡ some c)

  -- A uri is given, and no card has it.
  abbrev pub IsMissing : Option ℕ → S → Type 0
  IsMissing token_uri s =
      (uri : ℕ) × (token_uri ≡ some uri) × (card_model.find_one (λ c. c.token_uri == uri) s ≡ none)

  -- Where no uri is given, the fuel is enough for every draw of one card.
  abbrev pub DrawsEnd : (ℕ → ℕ) → ℕ → Option ℕ → S → Type 0
  DrawsEnd date fuel (some uri) s = Unit {0}
  DrawsEnd date fuel none s =
      (k : ℕ)
      → (r : Result Draws) × (get_random_cards env fuel (date k) (awarded (env.coin k)) 1 8 elite s
          ≡ some r)

  first_drawn :
      (P : Card → Type 0) (cards : List Card)
      → All P cards
      → 1 ≤ length cards
      → (c : Card) × (head_of cards ≡ some c) × P c
  first_drawn P [] h l = absurd (omega arith)
  first_drawn P (c ∷ cs) h l = (c, refl, h.0)

  get_random_cards-IsChosen :
      (fuel seed : ℕ) (type : CardType) (s : S) (r : Result Draws)
      → get_random_cards env fuel seed type 1 8 elite s ≡ some r
      → ((x : Error) × (r ≡ err x))
        ⊎ ((d : Draws) × (c : Card) × (r ≡ ok d) × (head_of d.cards ≡ some c) × IsChosen none s c)
  unfolding get_random_cards
  get_random_cards-IsChosen fuel seed type s r e = elim (Result-cases (get_max_card_seed env s)) [
    | inr (x, m) ↦ inl (x, let same = rw m at e in cc)
    | inl (max, m) ↦
        let find_card = draw_from env seed 8 elite type max s in
        let values = λ (k : ℕ). env.next_int seed k max in
        elim (Option-cases (draw_cards fuel find_card values 1 0 no_draws)) [
          | inl n ↦ absurd (let same = rw (m, n) at e in cc)
          | inr (d, n) ↦
              let (drawn, l) = draw_cards-IsDrawn find_card values fuel 1 0 no_draws d tt n in
              let (c, h, (value, f)) = first_drawn (IsDrawn find_card values) d.cards drawn l in
              inr (d, c, (let same = rw (m, n) at e in cc), h, (type, value, f))
        ]
  ]

  -- What the choice of a card ends in.
  abbrev pub ChoiceOutcome : Option ℕ → S → Result Choice → Type 0
  ChoiceOutcome token_uri s r =
      ((x : Error) × (r ≡ err x))
      ⊎ (((r ≡ ok token_not_found) × IsMissing token_uri s)
          ⊎ ((c : Card) × (r ≡ ok (chosen (some c))) × IsChosen token_uri s c))

  pub choose-ChoiceOutcome :
      (date : ℕ → ℕ) (fuel : ℕ) (token_uri : Option ℕ) (w : World S U C)
      → DrawsEnd date fuel token_uri w.cards
      → (r : Result Choice) × (v : World S U C) × (choose env date fuel token_uri w ≡ some (r, v))
        × ChoiceOutcome token_uri w.cards r
        × (v.cards ≡ w.cards)
        × (history env v ≡ history env w)
  unfolding choose
  choose-ChoiceOutcome date fuel (some uri) w ends =
      elim (Option-cases (card_model.find_one (λ c. c.token_uri == uri) w.cards)) [
        | inl n ↦ rw n (ok token_not_found, w, refl, inr (inl (refl, (uri, refl, n))), refl, refl)
        | inr (c, n) ↦ rw n (ok (chosen (some c)), w, refl, inr (inr (c, refl, refl)), refl, refl)
      ]
  choose-ChoiceOutcome date fuel none w ends =
      let v = record w { draws = suc w.draws } in
      let type = awarded (env.coin w.draws) in
      let (r, e) = ends w.draws in
      elim (get_random_cards-IsChosen fuel (date w.draws) type w.cards r e) [
        | inl (x, b) ↦ rw (e, finish) (rw b (err x, v, refl, inl (x, refl), refl, refl))
        | inr (d, c, b, h, f) ↦
            rw (e, finish)
              (rw b (rw h (ok (chosen (some c)), v, refl, inr (inr (c, refl, f)), refl, refl)))
      ]
