-- ===== src/Card/Command/Jobs.antt =====
-- The parallel jobs of src/module/card/command/card.command.ts, which store the data of their cards
-- and create the documents in any order of steps.
pub mod Seeded
pub mod Bag
use zombiies_api.Common.{
  ℕ, suc, ◌+◌, ◌*◌, ◌≤◌, ◌<◌, ◌≡◌, refl, sym, ap, ◌∙◌, Bool, true, Option, none, some, List, [],
  ◌∷◌, ◌++◌, map, length, All, ok, filter, arith, length-append, not,
}
use zombiies_api.Common.Keys.{count}
use zombiies_api.Card.Schema.{Card, CardData}
use zombiies_api.Card.Service.{CardEnv, World, on_chain, create_card, delete_all, seeded}
use zombiies_api.Card.Command.{seeded_card, data_chunks}
use zombiies_api.Card.Command.Chunks.{concat, data_chunks_lem}

-- A job of `doSeed`: the card whose data is stored and whose document is not created yet, and the
-- cards after it.
pub record Job : Type 0 where
  pub pending : Option (CardData × ℕ)
  pub rest : List CardData

abbrev pub start_job : List CardData → Job
start_job cards = record { pending = none; rest = cards }

pub record Seeding (S U C : Type 0) : Type 0 where
  pub jobs : List Job
  pub world : World S U C
  pub seeded_count : ℕ

abbrev pub data_of : Card → CardData
data_of c = record {
  name = c.name;
  cost = c.cost;
  rare_level = c.rare_level;
  faction = c.faction;
  type = c.type;
  level = c.level;
  skills = c.skills;
  start_seed = c.start_seed;
  end_seed = c.end_seed;
  total_seeds = c.total_seeds;
}

module _ {S U C : Type 0} (env : CardEnv S U C) where
  open env use {card_model}

  -- A step of one of the jobs, up to its next `await`. A job that has thrown takes no step.
  pub data Step (before after : Seeding S U C) : Type 0 where
    stores :
        (pre post : List Job) (c : CardData) (cs : List CardData) (uri : ℕ) (v : World S U C)
        → before.jobs ≡ pre ++ record { pending = none; rest = c ∷ cs } ∷ post
        → on_chain env (env.put_object (seeded c)) before.world ≡ (ok uri, v)
        → after ≡ record {
          jobs = pre ++ record { pending = some (c, uri); rest = cs } ∷ post;
          world = v;
          seeded_count = before.seeded_count;
        }
        → Step before after
    creates :
        (pre post : List Job) (c : CardData) (cs : List CardData) (uri : ℕ) (card : Card)
        (v : World S U C)
        → before.jobs ≡ pre ++ record { pending = some (c, uri); rest = cs } ∷ post
        → create_card env (seeded_card c uri) before.world ≡ (ok card, v)
        → after ≡ record {
          jobs = pre ++ start_job cs ∷ post;
          world = v;
          seeded_count = suc before.seeded_count;
        }
        → Step before after

  -- A number of steps.
  pub data Steps (start : Seeding S U C) : ℕ → Seeding S U C → Type 0 where
    begin : Steps start 0 start
    then_step :
        {n : ℕ} {mid after : Seeding S U C}
        → Steps start n mid
        → Step mid after
        → Steps start (suc n) after

  abbrev pub IsDone : Job → Type 0
  IsDone j = (j.pending ≡ none) × (j.rest ≡ [])

  -- The jobs of `doParallelJob` after `deleteAll`.
  abbrev pub start_seeding : List CardData → ℕ → World S U C → Seeding S U C
  start_seeding cards jobs w = record {
    jobs = map start_job (data_chunks cards jobs);
    world = (delete_all env w).1;
    seeded_count = 0;
  }
