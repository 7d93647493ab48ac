-- ===== src/Card/Schema.antt =====
-- src/module/card/schema/card.schema.ts and `RareLevels` of enum/rare-level.enum.ts.
use zombiies_api.Common.{
  ℕ, suc, zero, ◌+◌, ◌≤◌, ◌≡◌, ◌↔◌, Bool, true, List, [], ◌∷◌, ◌==◌, any, if◌then◌else◌, arith,
}
use zombiies_api.Card.Model.{
  CardType, RareLevel, common, rare, epic, legendary, elite, Faction, CardSkillModel,
  CardTokenModel,
}

pub record Card : Type 0 where
  pub id : ℕ
  pub name : ℕ
  pub cost : ℕ
  pub rare_level : RareLevel
  pub faction : Faction
  pub type : CardType
  pub token_uri : ℕ
  pub level : ℕ
  pub skills : List CardSkillModel
  pub start_seed : ℕ
  pub end_seed : ℕ
  pub total_seeds : ℕ

-- `Omit<Card, 'tokenUri'>`.
pub record CardData : Type 0 where
  pub name : ℕ
  pub cost : ℕ
  pub rare_level : RareLevel
  pub faction : Faction
  pub type : CardType
  pub level : ℕ
  pub skills : List CardSkillModel
  pub start_seed : ℕ
  pub end_seed : ℕ
  pub total_seeds : ℕ

abbrev pub rank : RareLevel → ℕ
rank common = 0
rank rare = 1
rank epic = 2
rank legendary = 3
rank elite = 4

abbrev pub rare_levels : List RareLevel
rare_levels = common ∷ rare ∷ epic ∷ legendary ∷ elite ∷ []

abbrev pub rare_level_eq : RareLevel → RareLevel → Bool
rare_level_eq a b = rank a == rank b

-- `xs.indexOf(x)` of a value that is there.
abbrev pub index_of : RareLevel → List RareLevel → ℕ
index_of x [] = 0
index_of x (y ∷ ys) = let rest = index_of x ys in if rare_level_eq y x then 0 else suc rest

-- `xs.slice(0, n)`.
abbrev pub take {ℓ} : {A : Type ℓ} → ℕ → List A → List A
take n [] = []
take zero (x ∷ xs) = []
take (suc n) (x ∷ xs) = x ∷ take n xs

unfoldable pub accept_rare_levels : RareLevel → List RareLevel
accept_rare_levels max = take (index_of max rare_levels + 1) rare_levels

-- `{ tokenId, ...card.toObject() }`.
abbrev pub to_token : ℕ → Card → CardTokenModel
to_token token_id c = record {
  token_id = token_id;
  name = c.name;
  cost = c.cost;
  rare_level = c.rare_level;
  faction = c.faction;
  type = c.type;
  token_uri = c.token_uri;
  level = c.level;
  skills = c.skills;
}

-- A level is accepted when it is not above the highest one.
pub accept_rare_levels_lem :
    (max level : RareLevel)
    → (any (rare_level_eq level) (accept_rare_levels max) ≡ true) ↔ (rank level ≤ rank max)
unfolding accept_rare_levels
accept_rare_levels_lem max level = ground arith
