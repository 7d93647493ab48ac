-- ===== src/Card/Command/Jobs/Seeded.antt =====
-- What the jobs have stored when they are done, whatever the order of their steps.
use zombiies_api.Common.{
  ℕ, suc, ok, inl, inr, Option-cases, ◌==◌, ◌+◌, ◌*◌, ◌≤◌, ◌<◌, ◌≡◌, refl, sym, ap, ◌∙◌, Bool, true,
  none, some, List, [], ◌∷◌, ◌++◌, map, length, All, filter, arith, length-append, not,
}
use zombiies_api.Common.Keys.{count}
use zombiies_api.Card.Schema.{Card, CardData}
use zombiies_api.Card.Service.{CardEnv, World, create_card, delete_all}
use zombiies_api.Card.Command.{seeded_card, data_chunks}
use zombiies_api.Card.Command.Chunks.{concat, data_chunks_lem}
use zombiies_api.Card.Command.Jobs.{
  Job, start_job, Seeding, data_of, Step, stores, creates, Steps, begin, then_step, IsDone,
  start_seeding,
}

-- The cards that a job has left, and the steps that they take.
abbrev pub job_cards : Job → List CardData
job_cards j = elim j.pending [ none ↦ j.rest | some p ↦ p.0 ∷ j.rest ]

abbrev pub job_steps : Job → ℕ
job_steps j = elim j.pending [ none ↦ 2 * length j.rest | some p ↦ suc (2 * length j.rest) ]

abbrev pub jobs_cards : List Job → List CardData
jobs_cards [] = []
jobs_cards (j ∷ js) = job_cards j ++ jobs_cards js

abbrev pub jobs_steps : List Job → ℕ
jobs_steps [] = 0
jobs_steps (j ∷ js) = job_steps j + jobs_steps js

count-append :
    (p : CardData → Bool) (xs ys : List CardData) → count p (xs ++ ys) ≡ count p xs + count p ys
count-append p [] ys = omega arith
count-append p (x ∷ xs) ys = ground (arith, count-append p xs ys)

count-jobs :
    (p : CardData → Bool) (pre post : List Job) (j : Job)
    → count p (jobs_cards (pre ++ j ∷ post))
      ≡ count p (jobs_cards pre) + count p (job_cards j) + count p (jobs_cards post)
count-jobs p [] post j = omega (arith, count-append p (job_cards j) (jobs_cards post))
count-jobs p (i ∷ pre) post j = omega (
  arith,
  count-append p (job_cards i) (jobs_cards (pre ++ j ∷ post)),
  count-append p (job_cards i) (jobs_cards pre),
  count-jobs p pre post j,
)

steps-jobs :
    (pre post : List Job) (j : Job)
    → jobs_steps (pre ++ j ∷ post) ≡ jobs_steps pre + job_steps j + jobs_steps post
steps-jobs [] post j = omega arith
steps-jobs (i ∷ pre) post j = omega (arith, steps-jobs pre post j)

count-map_append :
    (p : CardData → Bool) (cs : List Card) (c : Card)
    → count p (map data_of (cs ++ c ∷ [])) ≡ count p (map data_of cs) + count p (data_of c ∷ [])
count-map_append p [] c = omega arith
count-map_append p (x ∷ cs) c = ground (arith, count-map_append p cs c)

length-map_append :
    (cs : List Card) (c : Card)
    → length (map data_of (cs ++ c ∷ [])) ≡ suc (length (map data_of cs))
length-map_append [] c = refl
length-map_append (x ∷ cs) c = ap suc (length-map_append cs c)

pub count_everything : (cs : List CardData) → count (λ c. true) cs ≡ length cs
count_everything [] = refl
count_everything (c ∷ cs) = ap suc (count_everything cs)

started_cards : (xss : List (List CardData)) → jobs_cards (map start_job xss) ≡ concat xss
started_cards [] = refl
started_cards (xs ∷ xss) = ap (λ ys. xs ++ ys) (started_cards xss)

started_steps :
    (xss : List (List CardData)) → jobs_steps (map start_job xss) ≡ 2 * length (concat xss)
started_steps [] = omega arith
started_steps (xs ∷ xss) = omega (arith, started_steps xss, length-append xs (concat xss))

module _ {S U C : Type 0} (env : CardEnv S U C) where
  open env use {card_model}

  abbrev pub stored : Seeding S U C → List CardData
  stored s = map data_of (card_model.docs s.world.cards)

  -- What a step keeps: the cards that are stored or left, the number of stored cards and the steps.
  record Kept (before after : Seeding S U C) : Type 0 where
    cards :
        (p : CardData → Bool)
        → count p (stored after) + count p (jobs_cards after.jobs)
          ≡ count p (stored before) + count p (jobs_cards before.jobs)
    counted :
        after.seeded_count + length (stored before) ≡ before.seeded_count + length (stored after)
    steps : suc (jobs_steps after.jobs) ≡ jobs_steps before.jobs

  -- A document that is created is added at the end.
  create_card-ok :
      (params : ℕ → Card) (card : Card) (w v : World S U C)
      → create_card env params w ≡ (ok card, v)
      → card_model.docs v.cards ≡ card_model.docs w.cards ++ params (card_model.new_id w.cards) ∷ []
  unfolding create_card
  create_card-ok params card w v e =
      elim (Option-cases (
        card_model.find_one (λ c. c.token_uri == (params (card_model.new_id w.cards)).token_uri)
          w.cards)) [
            | inl n ↦
                let made = rw n at e in
                sym (ap (λ r. card_model.docs r.1.cards) made)
                ∙ card_model.create_lem params w.cards
            | inr (c, n) ↦ absurd (let failed = rw n at e in cc failed)
          ]

  Step-Kept : {before after : Seeding S U C} → Step env before after → Kept before after
  Step-Kept {before} {after} (stores pre post c cs uri v e s f) =
      let left : Job = record { pending = none; rest = c ∷ cs } in
      let right : Job = record { pending = some (c, uri); rest = cs } in
      let same : before.world.cards ≡ v.cards = ap (λ r. r.1.cards) s in
      rw f (record {
        cards = λ p.
            rw e (rw same (omega (arith, count-jobs p pre post left, count-jobs p pre post right)));
        counted = rw same refl;
        steps = rw e (omega (arith, steps-jobs pre post left, steps-jobs pre post right));
      })
  Step-Kept {before} {after} (creates pre post c cs uri card v e s f) =
      let left : Job = record { pending = some (c, uri); rest = cs } in
      let new : Card = seeded_card c uri (card_model.new_id before.world.cards) in
      let added : card_model.docs v.cards ≡ card_model.docs before.world.cards ++ new ∷ [] =
        create_card-ok (seeded_card c uri) card before.world v s in
      rw f (record {
        cards = λ p. rw e (
            rw added (
              omega (
                arith,
                count-map_append p (card_model.docs before.world.cards) new,
                count-append p (c ∷ []) cs,
                count-jobs p pre post left,
                count-jobs p pre post (start_job cs),
              )));
        counted =
            rw added (omega (arith, length-map_append (card_model.docs before.world.cards) new));
        steps = rw e (omega (arith, steps-jobs pre post left, steps-jobs pre post (start_job cs)));
      })

  Steps-Kept :
      {start after : Seeding S U C} {n : ℕ}
      → Steps env start n after
      → ((p : CardData → Bool)
          → count p (stored after) + count p (jobs_cards after.jobs)
            ≡ count p (stored start) + count p (jobs_cards start.jobs))
        × (after.seeded_count + length (stored start) ≡ start.seeded_count + length (stored after))
        × (n + jobs_steps after.jobs ≡ jobs_steps start.jobs)
  Steps-Kept begin = ((λ p. refl), refl, omega arith)
  Steps-Kept (then_step steps step) =
      let (cards, counted, left) = Steps-Kept steps in
      let kept = Step-Kept step in
      (
        (λ p. kept.cards p ∙ cards p),
        omega (arith, kept.counted, counted),
        omega (arith, kept.steps, left),
      )

  done_cards : (js : List Job) → All (IsDone env) js → jobs_cards js ≡ []
  done_cards [] h = refl
  done_cards (j ∷ js) h = rw (h.0.0, h.0.1) (done_cards js h.1)

  done_steps : (js : List Job) → All (IsDone env) js → jobs_steps js ≡ 0
  done_steps [] h = refl
  done_steps (j ∷ js) h = rw (h.0.0, h.0.1) (omega (arith, done_steps js h.1))

  nothing_kept : (ds : List Card) → filter (λ d. not true) ds ≡ []
  nothing_kept [] = refl
  nothing_kept (d ∷ ds) = nothing_kept ds

  nothing_stored : (w : World S U C) → card_model.docs (delete_all env w).1.cards ≡ []
  unfolding delete_all
  nothing_stored w =
      card_model.delete_many_lem (λ c. true) w.cards ∙ nothing_kept (card_model.docs w.cards)

  -- However the steps of a positive number of jobs interleave: a run of them makes at most two
  -- steps for each card, and when every job is done, it has made exactly two. Then the stored cards
  -- are the given ones, each as many times as it is given, nothing of the cards before is left, and
  -- the counter shows the number of the cards.
  pub Steps-seeded :
      (cards : List CardData) (jobs n : ℕ) (w : World S U C) (after : Seeding S U C)
      → 0 < jobs
      → Steps env (start_seeding env cards jobs w) n after
      → (n ≤ 2 * length cards)
        × (All (IsDone env) after.jobs
            → (n ≡ 2 * length cards)
              × (after.seeded_count ≡ length cards)
              × ((p : CardData → Bool) → count p (stored after) ≡ count p cards))
  Steps-seeded cards jobs n w after h steps =
      let (kept, counted, left) = Steps-Kept steps in
      let all : concat (data_chunks cards jobs) ≡ cards = (data_chunks_lem cards jobs h).0 in
      let empty = nothing_stored w in
      let start_steps : jobs_steps (map start_job (data_chunks cards jobs)) ≡ 2 * length cards =
        started_steps (data_chunks cards jobs) ∙ ap (λ xs. 2 * length xs) all in
      let start_cards : jobs_cards (map start_job (data_chunks cards jobs)) ≡ cards =
        started_cards (data_chunks cards jobs) ∙ all in
      (
        omega (arith, left, start_steps),
        λ done.
            let same : (p : CardData → Bool) → count p (stored after) ≡ count p cards = λ p.
              let before_cards : count p (stored (start_seeding env cards jobs w)) ≡ 0 =
                ap (λ ds. count p (map data_of ds)) empty in
              let before_jobs : count p (jobs_cards (map start_job (data_chunks cards jobs)))
                  ≡ count p cards =
                ap (count p) start_cards in
              let after_jobs : count p (jobs_cards after.jobs) ≡ 0 =
                ap (count p) (done_cards after.jobs done) in
              omega (arith, kept p, before_cards, before_jobs, after_jobs) in
            let before_count : length (stored (start_seeding env cards jobs w)) ≡ 0 =
              ap (λ ds. length (map data_of ds)) empty in
            let total : length (stored after) ≡ length cards =
              sym (count_everything (stored after)) ∙ same (λ c. true) ∙ count_everything cards in
            (
              omega (arith, left, start_steps, done_steps after.jobs done),
              omega (arith, counted, before_count, total),
              same,
            ),
      )
