-- ===== src/Common/Memory.antt =====
-- An in-memory model and an in-memory queue that obey the laws of the interfaces, so that the
-- services can be run on concrete data.
use Prim.Native.Nat.{ℕ, suc, ◌≤◌, ◌<◌, max}
use mathlib.Core.Path.{◌≡◌, refl}
use mathlib.Core.Bool.{true, false, not}
use mathlib.Core.Option.{Option, none, some}
use mathlib.Core.List.{List, [], ◌∷◌, ◌++◌, map}
use native.Mathlib.Omega.{arith}
use zombiies_api.Common.Tests.{◌==◌, if◌then◌else◌}
use zombiies_api.Common.Lists.{length, find, filter, any}
use zombiies_api.Common.Ports.{Collection, JobQueue, Random}

module _ {D : Type 0} (id : D → ℕ) where
  -- One more than every id in use.
  abbrev next_id : List D → ℕ
  next_id [] = 1
  next_id (d ∷ ds) = max (suc (id d)) (next_id ds)

  next_id_unused : (n : ℕ) (ds : List D) → next_id ds ≤ n → any (λ d. id d == n) ds ≡ false
  next_id_unused n [] h = refl
  next_id_unused n (d ∷ ds) h = ground (arith, next_id_unused n ds)

  pub next_id_lem : (ds : List D) → any (λ d. id d == next_id ds) ds ≡ false
  next_id_lem ds = next_id_unused (next_id ds) ds (omega arith)

  abbrev pub memory : Collection (List D) D
  memory = record {
    id = id;
    docs = λ s. s;
    find_one = find;
    find_many = filter;
    count_documents = λ p s. length (filter p s);
    create = λ f s. s ++ f (next_id s) ∷ [];
    new_id = next_id;
    update_many = λ p f. map (λ d. if p d then f d else d);
    delete_many = λ p. filter (λ d. not (p d));
    find_one_lem = λ p s. refl;
    find_many_lem = λ p s. refl;
    count_documents_lem = λ p s. refl;
    create_lem = λ f s. refl;
    new_id_lem = next_id_lem;
    update_many_lem = λ p f s. refl;
    delete_many_lem = λ p s. refl;
  }

module _ {D : Type 0} where
  abbrev job_of : ℕ → List (ℕ × D) → Option D
  job_of i [] = none
  job_of i ((j, d) ∷ q) = if j == i then some d else job_of i q

  abbrev without : ℕ → List (ℕ × D) → List (ℕ × D)
  without i [] = []
  without i ((j, d) ∷ q) = let rest = without i q in if j == i then rest else (j, d) ∷ rest

  abbrev next_job : List (ℕ × D) → ℕ
  next_job [] = 1
  next_job ((j, d) ∷ q) = max (suc j) (next_job q)

  pub job_of-without :
      (i j : ℕ) (q : List (ℕ × D)) → job_of j (without i q) ≡ (if i == j then none else job_of j q)
  job_of-without i j [] = ground arith
  job_of-without i j ((k, d) ∷ q) = ground (arith, job_of-without i j q)

  abbrev pub memory_queue : JobQueue (List (ℕ × D)) D
  memory_queue = record {
    add = λ d delay q. (next_job q, (next_job q, d) ∷ q);
    get_job = job_of;
    remove = without;
    get_job-add = λ j d delay q. refl;
    get_job-remove = job_of-without;
  }

-- The least possible draws.
pub least_index_range : (k n : ℕ) → 0 < n → 0 < n
least_index_range k n h = h

pub least_int_range : (k lo hi : ℕ) → lo < hi → (lo ≤ lo) × (lo < hi)
least_int_range k lo hi h = (omega arith, h)

abbrev pub least_draws : Random
least_draws = record {
  coin = λ k. true;
  random_index = λ k n. 0;
  random_int = λ k lo hi. lo;
  random_index_range = least_index_range;
  random_int_range = least_int_range;
}
