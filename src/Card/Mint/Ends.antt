-- ===== src/Card/Mint/Ends.antt =====
-- When the draws of `getRandomCardsWithRandomValue` end, and which cards they give.
use zombiies_api.Common.{
  ℕ, zero, suc, ◌≤◌, ◌<◌, ◌≡◌, sym, ap, ◌∙◌, inl, inr, true, some, All, length, ok, Option-cases,
  find_holds, arith,
}
use zombiies_api.Card.Model.{CardType, RareLevel}
use zombiies_api.Card.Schema.{Card}
use zombiies_api.Card.Draws.{no_draws, fits}
use zombiies_api.Card.Draws.Ends.{hit_cards, IsFirst, extend, draw_cards-IsFirst}
use zombiies_api.Card.Service.{CardEnv, get_max_card_seed}
use zombiies_api.Card.Mint.{get_random_cards, draw_from, as_ok}

module _ {S U C : Type 0} (env : CardEnv S U C) where
  open env use {card_model}

  -- A card that the query of some draw finds.
  abbrev pub IsFit : ℕ → RareLevel → CardType → Card → Type 0
  IsFit max_level max_rare type c = (value : ℕ) × (fits max_level max_rare type value c ≡ true)

  hit_cards-IsFit :
      (seed max max_level : ℕ) (max_rare : RareLevel) (type : CardType) (s : S) (k n : ℕ)
      → All (IsFit max_level max_rare type) (
          hit_cards
            (draw_from env seed max_level max_rare type max s)
            (λ j. env.next_int seed j max)
            k
            n)
  hit_cards-IsFit seed max max_level max_rare type s k zero = tt
  hit_cards-IsFit seed max max_level max_rare type s k (suc n) =
      let rest = hit_cards-IsFit seed max max_level max_rare type s (suc k) n in
      let value = env.next_int seed k max in
      let query = fits max_level max_rare type value in
      elim (Option-cases (card_model.find_one query s)) [
        | inl e ↦ rw e rest
        | inr (c, e) ↦
            let found =
              find_holds query (card_model.docs s) (sym (card_model.find_one_lem query s) ∙ e) in
            rw e ((value, found), rest)
      ]

  -- Where `n` draws give `count` cards, the loop ends with any fuel from `n` on. It has then made the
  -- least number of draws that gives them, and every card it returns is of the type asked for and
  -- within the levels.
  pub get_random_cards-ends :
      (fuel n seed count max max_level : ℕ) (max_rare : RareLevel) (type : CardType) (s : S)
      → get_max_card_seed env s ≡ ok max
      → 0 < n
      → n ≤ fuel
      → let find_card = draw_from env seed max_level max_rare type max s in
        let values = λ (j : ℕ). env.next_int seed j max in
        count ≤ length (hit_cards find_card values 0 n)
        → (m : ℕ) × (m ≤ n)
          × IsFirst find_card values count 0 m no_draws
          × (get_random_cards env fuel seed type count max_level max_rare s
              ≡ some (ok (extend find_card values 0 m no_draws)))
          × All (IsFit max_level max_rare type) (extend find_card values 0 m no_draws).cards
  unfolding get_random_cards
  get_random_cards-ends fuel n seed count max max_level max_rare type s e p h c =
      let find_card = draw_from env seed max_level max_rare type max s in
      let values = λ (j : ℕ). env.next_int seed j max in
      let (m, le, first, result) =
        draw_cards-IsFirst find_card values count fuel n 0 no_draws p h (omega arith) in
      (m, le, first, rw e (ap as_ok result), hit_cards-IsFit seed max max_level max_rare type s 0 m)
