-- ===== src/Card/Draws.antt =====
-- `getRandomCardsWithRandomValue` of src/module/card/card.service.ts: cards drawn until there are
-- enough.
pub mod Ends
pub mod Drawn
use zombiies_api.Common.{
  ℕ, zero, suc, ◌+◌, ◌-◌, ◌≤◌, ◌<◌, ◌≡◌, ◌≢◌, refl, sym, ap, ◌∙◌, inl, inr, Bool, true, false, ◌&&◌,
  Option, none, some, List, [], ◌∷◌, ◌++◌, leb, ltb, if◌then◌else◌, length, length-append, filter,
  All, All-append, any, is_some, arith, Bool-cases, Option-cases,
}
use zombiies_api.Card.Model.{CardType, RareLevel, is_monster}
use zombiies_api.Card.Schema.{Card, rare_level_eq, accept_rare_levels}

-- An element of `randoms`.
pub record Draw : Type 0 where
  pub value : ℕ
  pub take : Bool

pub record Draws : Type 0 where
  pub randoms : List Draw
  pub cards : List Card

abbrev pub no_draws : Draws
no_draws = record { randoms = []; cards = [] }

abbrev pub type_eq : CardType → CardType → Bool
type_eq a b = if is_monster a then is_monster b else (if is_monster b then false else true)

-- The query of a draw.
abbrev pub fits : ℕ → RareLevel → CardType → ℕ → Card → Bool
fits max_level max_rare type value c =
    leb c.start_seed value
    && ltb value c.end_seed
    && leb c.level max_level
    && any (rare_level_eq c.rare_level) (accept_rare_levels max_rare)
    && type_eq c.type type

abbrev pub push_card : Option Card → List Card → List Card
push_card none cards = cards
push_card (some c) cards = cards ++ c ∷ []

-- One round of the loop, on a drawn number.
abbrev pub draw_once : (ℕ → Option Card) → ℕ → Draws → Draws
draw_once find_card value d = record {
  randoms = d.randoms ++ record { value = value; take = is_some (find_card value) } ∷ [];
  cards = push_card (find_card value) d.cards;
}

-- `do { … } while (cards.length < count)` on fuel: `none` is a loop that still runs. `values k` is the
-- number of the `k`-th draw.
unfoldable pub draw_cards : ℕ → (ℕ → Option Card) → (ℕ → ℕ) → ℕ → ℕ → Draws → Option Draws
draw_cards zero find_card values count k d = none
draw_cards (suc fuel) find_card values count k d =
    let rest = draw_cards fuel find_card values count (suc k) (draw_once find_card (values k) d) in
    if ltb (length (draw_once find_card (values k) d).cards) count
    then rest
    else some (draw_once find_card (values k) d)
