-- ===== src/Card/Command/Chunks.antt =====
-- The chunks of `doParallelJob` of src/module/card/command/card.command.ts.
use mathlib.Core.List.{append-nil, append_assoc}
use zombiies_api.Common.{
  ℕ, zero, suc, ◌+◌, ◌-◌, ◌*◌, ◌≤◌, ◌<◌, ◌≡◌, refl, sym, ap, ◌∙◌, List, [], ◌∷◌, ◌++◌, length, All,
  arith,
}
use zombiies_api.Card.Schema.{take}
use zombiies_api.Card.Command.{drop, slice, nums_per_job, chunks_from, data_chunks}

nums_per_job_enough : (n jobs : ℕ) → 0 < jobs → n ≤ jobs * nums_per_job n jobs
nums_per_job_enough n jobs h = grind arith

step_size : (i size : ℕ) → suc i * size ≡ i * size + size
step_size i size = omega arith

drop-zero : {A : Type 0} (xs : List A) → drop 0 xs ≡ xs
drop-zero [] = refl
drop-zero (x ∷ xs) = refl

take-append-drop : {A : Type 0} (n : ℕ) (xs : List A) → take n xs ++ drop n xs ≡ xs
take-append-drop n [] = refl
take-append-drop zero (x ∷ xs) = refl
take-append-drop (suc n) (x ∷ xs) = ap (λ ys. x ∷ ys) (take-append-drop n xs)

drop-drop : {A : Type 0} (m n : ℕ) (xs : List A) → drop m (drop n xs) ≡ drop (n + m) xs
drop-drop m n [] = refl
drop-drop m zero (x ∷ xs) = let same : m ≡ 0 + m = omega arith in ap (λ k. drop k (x ∷ xs)) same
drop-drop m (suc n) (x ∷ xs) =
    let same : suc (n + m) ≡ suc n + m = omega arith in
    drop-drop m n xs ∙ ap (λ k. drop k (x ∷ xs)) same

drop-all : {A : Type 0} (n : ℕ) (xs : List A) → length xs ≤ n → drop n xs ≡ []
drop-all n [] h = refl
drop-all zero (x ∷ xs) h = absurd (omega arith)
drop-all (suc n) (x ∷ xs) h = drop-all n xs (omega arith)

length-take : {A : Type 0} (n : ℕ) (xs : List A) → length (take n xs) ≤ n
length-take n [] = omega arith
length-take zero (x ∷ xs) = omega arith
length-take (suc n) (x ∷ xs) = omega (arith, length-take n xs)

abbrev pub concat : {A : Type 0} → List (List A) → List A
concat [] = []
concat (xs ∷ xss) = xs ++ concat xss

module _ {A : Type 0} (size : ℕ) (xs : List A) where
  chunks-concat :
      (count index : ℕ)
      → concat (chunks_from size xs count index) ++ drop ((index + count) * size) xs
        ≡ drop (index * size) xs
  chunks-concat zero index = ap (λ n. drop (n * size) xs) (omega arith)
  chunks-concat (suc count) index =
      append_assoc (slice (index * size) (index * size + size) xs) _ _
      ∙ ap (λ ys. slice (index * size) (index * size + size) xs ++ ys)
          (ap (λ n. concat (chunks_from size xs count (suc index)) ++ drop (n * size) xs)
              (omega arith)
            ∙ chunks-concat count (suc index)
            ∙ ap (λ n. drop n xs) (omega arith)
            ∙ sym (drop-drop size (index * size) xs))
      ∙ ap (λ n. take n (drop (index * size) xs) ++ drop size (drop (index * size) xs))
          (omega arith)
      ∙ take-append-drop size (drop (index * size) xs)

  chunks-small : (count index : ℕ) → All (λ c. length c ≤ size) (chunks_from size xs count index)
  chunks-small zero index = tt
  chunks-small (suc count) index = (
    omega (arith, length-take (index * size + size - index * size) (drop (index * size) xs)),
    chunks-small count (suc index),
  )

  chunks-count : (count index : ℕ) → length (chunks_from size xs count index) ≡ count
  chunks-count zero index = refl
  chunks-count (suc count) index = ap suc (chunks-count count (suc index))

-- For a positive number of jobs, `doParallelJob` makes as many chunks, none of them longer than the
-- number of cards divided by the number of jobs and rounded up; put together in their order they are
-- the cards, each of them once.
pub data_chunks_lem :
    {A : Type 0} (xs : List A) (jobs : ℕ)
    → 0 < jobs
    → (concat (data_chunks xs jobs) ≡ xs)
      × (length (data_chunks xs jobs) ≡ jobs)
      × All (λ c. length c ≤ nums_per_job (length xs) jobs) (data_chunks xs jobs)
unfolding data_chunks
data_chunks_lem xs jobs h =
    let size = nums_per_job (length xs) jobs in
    let rest : concat (data_chunks xs jobs) ++ drop (jobs * size) xs ≡ drop 0 xs =
      ap (λ n. concat (data_chunks xs jobs) ++ drop (n * size) xs) (omega arith)
      ∙ chunks-concat size xs jobs 0
      ∙ ap (λ n. drop n xs) (omega arith) in
    (
      sym (append-nil (concat (data_chunks xs jobs)))
          ∙ ap (λ ys. concat (data_chunks xs jobs) ++ ys)
              (sym (drop-all (jobs * size) xs (nums_per_job_enough (length xs) jobs h)))
          ∙ rest
          ∙ drop-zero xs,
      chunks-count size xs jobs 0,
      chunks-small size xs jobs 0,
    )
