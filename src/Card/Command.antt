-- ===== src/Card/Command.antt =====
-- src/module/card/command/card.command.ts: the seeding of the cards by parallel jobs.
pub mod Chunks
pub mod Jobs
use zombiies_api.Common.{
  ℕ, zero, suc, ◌+◌, ◌-◌, ◌*◌, ◌/◌, ◌≡◌, List, [], ◌∷◌, ◌++◌, map, length, ok, Action, and_then,
  lift, modify, Option, none, some, Result,
}
use zombiies_api.Common.Async.{◌>>=◌, ◌>>◌}
use zombiies_api.Ether.{Receipt}
use zombiies_api.Card.Model.{CardType, RareLevel, Faction, CardSkillModel}
use zombiies_api.Card.Schema.{Card, CardData, take}
use zombiies_api.Card.Service.{
  CardEnv, World, CardAction, on_chain, get_all_card, create_card, delete_all, seeded, factory,
}

pub record Level : Type 0 where
  pub level : ℕ
  pub skills : List CardSkillModel

pub record CardSeed : Type 0 where
  pub name : ℕ
  pub cost : ℕ
  pub rare_level : RareLevel
  pub faction : Faction
  pub type : CardType
  pub levels : List Level
  pub start_seed : ℕ
  pub end_seed : ℕ
  pub total_seeds : ℕ

abbrev pub level_card : CardSeed → Level → CardData
level_card c l = record {
  name = c.name;
  cost = c.cost;
  rare_level = c.rare_level;
  faction = c.faction;
  type = c.type;
  level = l.level;
  skills = l.skills;
  start_seed = c.start_seed;
  end_seed = c.end_seed;
  total_seeds = c.total_seeds;
}

-- The `flatMap` of `seed`.
abbrev pub level_cards : List CardSeed → List CardData
level_cards [] = []
level_cards (c ∷ cs) = map (level_card c) c.levels ++ level_cards cs

abbrev pub drop : {A : Type 0} → ℕ → List A → List A
drop n [] = []
drop zero (x ∷ xs) = x ∷ xs
drop (suc n) (x ∷ xs) = drop n xs

-- `xs.slice(from, to)`.
abbrev pub slice : {A : Type 0} → ℕ → ℕ → List A → List A
slice from to xs = take (to - from) (drop from xs)

-- `Math.ceil(n / jobs)`, for a positive number of jobs.
abbrev pub nums_per_job : ℕ → ℕ → ℕ
nums_per_job n jobs = (n + (jobs - 1)) / jobs

-- The chunks of the next `count` indices from `index` on.
abbrev pub chunks_from : {A : Type 0} → ℕ → List A → ℕ → ℕ → List (List A)
chunks_from size xs zero index = []
chunks_from size xs (suc count) index =
    slice (index * size) (index * size + size) xs ∷ chunks_from size xs count (suc index)

-- `dataChunks` of `doParallelJob`.
unfoldable pub data_chunks : {A : Type 0} → List A → ℕ → List (List A)
data_chunks xs jobs = chunks_from (nums_per_job (length xs) jobs) xs jobs 0

-- The document that `createCard` builds of the data with its uri.
abbrev pub seeded_card : CardData → ℕ → ℕ → Card
seeded_card d uri id = record {
  id = id;
  name = d.name;
  cost = d.cost;
  rare_level = d.rare_level;
  faction = d.faction;
  type = d.type;
  token_uri = uri;
  level = d.level;
  skills = d.skills;
  start_seed = d.start_seed;
  end_seed = d.end_seed;
  total_seeds = d.total_seeds;
}

-- `contract.setFactoryURI(uri)` and `contract.setMintFee(fee)`, which give a transaction.
module _ {S U C : Type 0} (env : CardEnv S U C) (set_factory_uri set_mint_fee : ℕ → Action C ℕ)
    (parse_ether : ℕ → ℕ) where
  abbrev pub pin_factory : CardAction env (Unit {0})
  pin_factory = do
    cards ← get_all_card env
    ipfs_uri ← on_chain env (env.put_object (factory (map (λ c. c.token_uri) cards)))
    tx ← on_chain env (set_factory_uri ipfs_uri)
    _ ← on_chain env (env.client.chain.wait tx)
    lift (ok tt)

  abbrev pub set_starter_pack_fee : ℕ → CardAction env (Unit {0})
  set_starter_pack_fee fee = do _ ← on_chain env (set_mint_fee (parse_ether fee)); lift (ok tt)

  abbrev pub set_factory_uri_to : ℕ → CardAction env (Unit {0})
  set_factory_uri_to uri = do _ ← on_chain env (set_factory_uri uri); lift (ok tt)
