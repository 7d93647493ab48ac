-- ===== src/Common/Ports.antt =====
-- What the services use of third-party packages: mongoose models, bull queues, random numbers.
-- Each is a record of operations with laws that state their documented behaviour.
use Prim.Native.Nat.{ℕ, ◌≤◌, ◌<◌}
use Prim.Native.String.{String}
use mathlib.Core.Path.{◌≡◌}
use mathlib.Core.Bool.{Bool, false, not}
use mathlib.Core.Option.{Option, none, some}
use mathlib.Core.List.{List, [], ◌∷◌, ◌++◌, map}
use zombiies_api.Common.Tests.{◌==◌, if◌then◌else◌}
use zombiies_api.Common.Lists.{length, find, filter, any}

-- A mongoose model. `docs` lists the collection in its natural order, in which `findOne` searches.
pub record Collection (Store Doc : Type 0) : Type 0 where
  pub id : Doc → ℕ
  pub docs : Store → List Doc
  pub find_one : (Doc → Bool) → Store → Option Doc
  pub find_many : (Doc → Bool) → Store → List Doc
  pub count_documents : (Doc → Bool) → Store → ℕ
  -- `new this.model(…)` with `save()`: the document is built from its new `_id`.
  pub create : (ℕ → Doc) → Store → Store
  pub new_id : Store → ℕ
  pub update_many : (Doc → Bool) → (Doc → Doc) → Store → Store
  pub delete_many : (Doc → Bool) → Store → Store
  pub find_one_lem : (p : Doc → Bool) (s : Store) → find_one p s ≡ find p (docs s)
  pub find_many_lem : (p : Doc → Bool) (s : Store) → find_many p s ≡ filter p (docs s)
  pub count_documents_lem :
      (p : Doc → Bool) (s : Store) → count_documents p s ≡ length (filter p (docs s))
  pub create_lem : (f : ℕ → Doc) (s : Store) → docs (create f s) ≡ docs s ++ f (new_id s) ∷ []
  pub new_id_lem : (s : Store) → any (λ d. id d == new_id s) (docs s) ≡ false
  pub update_many_lem :
      (p : Doc → Bool) (f : Doc → Doc) (s : Store)
      → docs (update_many p f s) ≡ map (λ d. if p d then f d else d) (docs s)
  pub delete_many_lem :
      (p : Doc → Bool) (s : Store) → docs (delete_many p s) ≡ filter (λ d. not (p d)) (docs s)

module _ {Store Doc : Type 0} (c : Collection Store Doc) where
  abbrev pub find_by_id : ℕ → Store → Option Doc
  find_by_id i = c.find_one (λ d. c.id d == i)

  -- `updateOne({ _id: i }, …)`: an `_id` is unique.
  abbrev pub update_one : ℕ → (Doc → Doc) → Store → Store
  update_one i = c.update_many (λ d. c.id d == i)

  -- `deleteOne({ _id: i })`.
  abbrev pub delete_one : ℕ → Store → Store
  delete_one i = c.delete_many (λ d. c.id d == i)

-- A bull queue. `add` takes the job's data and its delay in words, and returns the job's id.
pub record JobQueue (Queue Data : Type 0) : Type 0 where
  pub add : Data → String → Queue → ℕ × Queue
  pub get_job : ℕ → Queue → Option Data
  pub remove : ℕ → Queue → Queue
  pub get_job-add :
      (j : ℕ) (d : Data) (delay : String) (q : Queue)
      → get_job j (add d delay q).1 ≡ (if (add d delay q).0 == j then some d else get_job j q)
  pub get_job-remove :
      (i j : ℕ) (q : Queue) → get_job j (remove i q) ≡ (if i == j then none else get_job j q)

-- Random draws, numbered in the order of the calls: `Math.random() >= 0.5`, the index
-- `Math.floor(Math.random() * n)`, and `randomInt(lo, hi)` of `crypto`.
pub record Random : Type 0 where
  pub coin : ℕ → Bool
  pub random_index : ℕ → ℕ → ℕ
  pub random_int : ℕ → ℕ → ℕ → ℕ
  pub random_index_range : (k n : ℕ) → 0 < n → random_index k n < n
  pub random_int_range :
      (k lo hi : ℕ) → lo < hi → (lo ≤ random_int k lo hi) × (random_int k lo hi < hi)
