-- ===== src/Card/Command/Jobs/Bag.antt =====
-- The cards that src/module/card/command/card.command.ts stores, whatever their order.
use mathlib.Core.Quot
use mathlib.Core.Quot.{Quot, Quot-set}
use native.Mathlib.Nat.{ℕ_set}
use zombiies_api.Common.{
  ℕ, ◌≤◌, ◌<◌, ◌≡◌, refl, sym, ap, ◌∙◌, ◌⊎◌, inl, inr, Bool, true, false, some, List, [], ◌∷◌, map,
  All, Result, ok, err, type_error, filter, arith, ltb, if◌then◌else◌, Bool-cases,
}
use zombiies_api.Common.Keys.{count}
use zombiies_api.Card.Schema.{Card, CardData}
use zombiies_api.Card.Service.{CardEnv, World, get_max_card_seed, highest}
use zombiies_api.Card.Command.Jobs.{Seeding, IsDone, data_of, Steps, start_seeding}
use zombiies_api.Card.Command.Jobs.Seeded.{Steps-seeded, stored}

-- Every test is passed by as many of the ones as of the others.
abbrev pub SameCards : List CardData → List CardData → Type 0
SameCards xs ys = (p : CardData → Bool) → count p xs ≡ count p ys

abbrev pub Bag : Type 0
Bag = Quot SameCards

abbrev pub bag : List CardData → Bag
bag cards = Quot.mk cards

-- The largest `endSeed`.
abbrev pub max_seed : List CardData → ℕ
max_seed [] = 0
max_seed (c ∷ cs) = if ltb (max_seed cs) c.end_seed then c.end_seed else max_seed cs

above : ℕ → CardData → Bool
above n c = ltb n c.end_seed

count-above : (n : ℕ) (cs : List CardData) → count (above n) cs ≡ 0 → max_seed cs ≤ n
unfolding above
count-above n [] h = omega arith
count-above n (c ∷ cs) h = elim (Bool-cases (ltb n c.end_seed)) [
  | inl e ↦ absurd (let more = rw e at h in omega (arith, more))
  | inr e ↦ let rest = count-above n cs (rw e at h) in ground (arith, e, rest)
]

none_above : (n : ℕ) (cs : List CardData) → max_seed cs ≤ n → count (above n) cs ≡ 0
unfolding above
none_above n [] h = refl
none_above n (c ∷ cs) h =
    let small : ltb n c.end_seed ≡ false = ground (arith, h) in
    rw small (none_above n cs (ground (arith, h)))

max_seed-le : (xs ys : List CardData) → SameCards xs ys → max_seed xs ≤ max_seed ys
max_seed-le xs ys h =
    count-above (max_seed ys) xs
      (h (above (max_seed ys)) ∙ none_above (max_seed ys) ys (omega arith))

pub max_seed-SameCards : (xs ys : List CardData) → SameCards xs ys → max_seed xs ≡ max_seed ys
max_seed-SameCards xs ys h =
    let back = max_seed-le ys xs (λ p. sym (h p)) in omega (arith, max_seed-le xs ys h, back)

-- The largest `endSeed` in a bag of cards.
unfoldable pub max_seed_of : Bag → ℕ
max_seed_of = Quot.lift ℕ_set max_seed max_seed-SameCards

highest-max_seed :
    (cs : List Card)
    → (cs ≡ []) ⊎ ((c : Card) × (highest cs ≡ some c) × (c.end_seed ≡ max_seed (map data_of cs)))
highest-max_seed [] = inl refl
highest-max_seed (c ∷ cs) = elim (highest-max_seed cs) [
  | inl n ↦ rw n (inr (c, refl, ground arith))
  | inr (h, e, same) ↦ elim (Bool-cases (ltb c.end_seed h.end_seed)) [
    | inl higher ↦ rw e (rw higher (inr (h, refl, ground (arith, same, higher))))
    | inr lower ↦ rw e (rw lower (inr (c, refl, ground (arith, same, lower))))
  ]
]

filter-true : {A : Type 0} (xs : List A) → filter (λ x. true) xs ≡ xs
filter-true [] = refl
filter-true (x ∷ xs) = ap (λ ys. x ∷ ys) (filter-true xs)

-- What `getMaxCardSeed` returns for cards that are, as a bag, the given ones.
abbrev pub max_seed_result : List CardData → Result ℕ
max_seed_result [] = err type_error
max_seed_result (c ∷ cs) = ok (max_seed_of (bag (c ∷ cs)))

empty_result :
    (cards : List CardData) → count (λ c. true) cards ≡ 0 → err type_error ≡ max_seed_result cards
empty_result [] h = refl
empty_result (c ∷ cs) h = absurd (omega (arith, h))

top_result :
    (cards : List CardData) (m : ℕ)
    → 0 < count (λ c. true) cards
    → m ≡ max_seed cards
    → ok m ≡ max_seed_result cards
unfolding max_seed_of
top_result [] m h e = absurd (omega (arith, h))
top_result (c ∷ cs) m h e = ap ok e

highest-some :
    (ds : List Card) (c : Card) → highest ds ≡ some c → 0 < count (λ c. true) (map data_of ds)
highest-some [] c e = absurd cc
highest-some (d ∷ ds) c e = omega arith

module _ {S U C : Type 0} (env : CardEnv S U C) where
  open env use {card_model}

  get_max_card_seed-SameCards :
      (cards : List CardData) (s : S)
      → SameCards (map data_of (card_model.docs s)) cards
      → get_max_card_seed env s ≡ max_seed_result cards
  unfolding max_seed_of
  get_max_card_seed-SameCards cards s same =
      let everything = same (λ c. true) in
      let read : card_model.find_many (λ c. true) s ≡ card_model.docs s =
        card_model.find_many_lem (λ c. true) s ∙ filter-true (card_model.docs s) in
      elim (highest-max_seed (card_model.docs s)) [
        | inl n ↦
            let nothing : count (λ c. true) cards ≡ 0 =
              sym everything ∙ ap (λ ds. count (λ c. true) (map data_of ds)) n in
            rw (read, get_max_card_seed) (rw (n, get_max_card_seed) (empty_result cards nothing))
        | inr (c, e, top) ↦
            rw (read, get_max_card_seed)
              (rw (e, get_max_card_seed)
                (top_result cards c.end_seed
                  (omega (arith, everything, highest-some (card_model.docs s) c e))
                  (top ∙ max_seed-SameCards (map data_of (card_model.docs s)) cards same)))
      ]

  -- However the steps of a positive number of jobs interleave: when every job is done, the stored
  -- cards are, as a bag, the given ones. `getMaxCardSeed` then returns the largest `endSeed` in the
  -- bag of the given cards, or throws a type error if there is no card.
  pub Steps-bag :
      (cards : List CardData) (jobs n : ℕ) (w : World S U C) (after : Seeding S U C)
      → 0 < jobs
      → Steps env (start_seeding env cards jobs w) n after
      → All (IsDone env) after.jobs
      → (bag (stored env after) ≡ bag cards)
        × (get_max_card_seed env after.world.cards ≡ max_seed_result cards)
  Steps-bag cards jobs n w after h steps done =
      let (made, counted, same) = (Steps-seeded env cards jobs n w after h steps).1 done in
      (Quot.sound same, get_max_card_seed-SameCards cards after.world.cards same)
