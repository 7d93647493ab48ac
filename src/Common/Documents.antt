-- ===== src/Common/Documents.antt =====
-- What the laws of a mongoose model give: documents looked up by id after an update, a deletion or
-- a creation, and a property of all documents kept by them.
use Prim.Native.Nat.{ℕ}
use mathlib.Core.Path.{◌≡◌, sym, ◌∙◌}
use mathlib.Core.Logic.{◌≢◌, inl, inr}
use mathlib.Core.Bool.{Bool, true}
use mathlib.Core.Option.{none, some}
use mathlib.Core.List.{List, [], ◌∷◌, map}
use native.Mathlib.Omega.{arith}
use zombiies_api.Common.Tests.{◌==◌, if◌then◌else◌, ==_refl, Bool-cases}
use zombiies_api.Common.Lists.{find, All, All-filter, All-append}
use zombiies_api.Common.Ports.{Collection, find_by_id, update_one}

module _ {ℓ κ} {A : Type ℓ} where
  pub All-find :
      (P : A → Type κ) (p : A → Bool) (xs : List A) {a : A} → All P xs → find p xs ≡ some a → P a
  All-find P p [] h e = cc
  All-find P p (x ∷ xs) {a} h e = elim (Bool-cases (p x)) [
    | inl t ↦ let same : x ≡ a = ground (arith, e, t) in rw same at (h.0)
    | inr t ↦ All-find P p xs {a = a} h.1 (rw t at e)
  ]

  pub All-map_if :
      (P : A → Type κ) (p : A → Bool) (f : A → A) (xs : List A)
      → All P xs
      → ((x : A) → p x ≡ true → P x → P (f x))
      → All P (map (λ x. if p x then f x else x) xs)
  All-map_if P p f [] h k = tt
  All-map_if P p f (x ∷ xs) h k = elim (Bool-cases (p x)) [
    | inl t ↦ rw t (k x t h.0, All-map_if P p f xs h.1 k)
    | inr t ↦ rw t (h.0, All-map_if P p f xs h.1 k)
  ]

module _ {Store Doc : Type 0} (c : Collection Store Doc) where
  find-map_if :
      (i j : ℕ) (f : Doc → Doc) (xs : List Doc)
      → ((d : Doc) → c.id (f d) ≡ c.id d)
      → find (λ d. c.id d == j) (map (λ d. if c.id d == i then f d else d) xs) ≡ (
          if i == j
          then elim (find (λ d. c.id d == j) xs) [ none ↦ none | some d ↦ some (f d) ]
          else find (λ d. c.id d == j) xs)
  find-map_if i j f [] k = ground arith
  find-map_if i j f (x ∷ xs) k = ground (arith, k x, find-map_if i j f xs k)

  pub find_by_id-update_one :
      (i j : ℕ) (f : Doc → Doc) (s : Store)
      → ((d : Doc) → c.id (f d) ≡ c.id d)
      → find_by_id c j (update_one c i f s) ≡ (
          if i == j
          then elim (find_by_id c j s) [ none ↦ none | some d ↦ some (f d) ]
          else find_by_id c j s)
  find_by_id-update_one i j f s k =
      simp (c.find_one_lem, c.update_many_lem) (find-map_if i j f (c.docs s) k)

  pub find_by_id-update_self :
      (i : ℕ) (f : Doc → Doc) (s : Store) (d : Doc)
      → ((x : Doc) → c.id (f x) ≡ c.id x)
      → find_by_id c i s ≡ some d
      → find_by_id c i (update_one c i f s) ≡ some (f d)
  find_by_id-update_self i f s d k e = rw (find_by_id-update_one i i f s k, e, ==_refl i)

  pub find_by_id-update_ne :
      (i j : ℕ) (f : Doc → Doc) (s : Store)
      → ((x : Doc) → c.id (f x) ≡ c.id x)
      → i ≢ j
      → find_by_id c j (update_one c i f s) ≡ find_by_id c j s
  find_by_id-update_ne i j f s k ne = find_by_id-update_one i j f s k ∙ ground (arith, ne)

  pub All-find_one :
      (P : Doc → Type 0) (p : Doc → Bool) (s : Store) {d : Doc}
      → All P (c.docs s)
      → c.find_one p s ≡ some d
      → P d
  All-find_one P p s {d} h e = All-find P p (c.docs s) {a = d} h (sym (c.find_one_lem p s) ∙ e)

  pub All-update_one :
      (P : Doc → Type 0) (i : ℕ) (f : Doc → Doc) (s : Store)
      → All P (c.docs s)
      → ((d : Doc) → c.id d ≡ i → P d → P (f d))
      → All P (c.docs (update_one c i f s))
  All-update_one P i f s h k =
      rw c.update_many_lem
        (All-map_if P (λ d. c.id d == i) f (c.docs s) h (λ d t. k d (ground (arith, t))))

  pub All-create :
      (P : Doc → Type 0) (f : ℕ → Doc) (s : Store)
      → All P (c.docs s)
      → P (f (c.new_id s))
      → All P (c.docs (c.create f s))
  All-create P f s h k = rw c.create_lem (All-append P (c.docs s) _ h (k, tt))

  pub All-delete :
      (P : Doc → Type 0) (p : Doc → Bool) (s : Store)
      → All P (c.docs s)
      → All P (c.docs (c.delete_many p s))
  All-delete P p s h = rw c.delete_many_lem (All-filter P _ (c.docs s) h)

  -- No two documents share an `_id`.
  abbrev pub Keyed : List Doc → Type 0
  Keyed [] = Unit
  Keyed (d ∷ ds) = (find (λ x. c.id x == c.id d) ds ≡ none) × Keyed ds

  abbrev pub IsKeyed : Store → Type 0
  IsKeyed s = Keyed (c.docs s)

  find-Keyed :
      (p : Doc → Bool) (ds : List Doc) {d : Doc}
      → Keyed ds
      → find p ds ≡ some d
      → find (λ x. c.id x == c.id d) ds ≡ some d
  find-Keyed p [] k e = cc
  find-Keyed p (x ∷ xs) {d} k e = elim (Bool-cases (p x)) [
    | inl t ↦ ground (arith, e, t)
    | inr t ↦ ground (arith, find-Keyed p xs {d = d} k.1, e, t, k.0)
  ]

  -- A document that any query finds is the one of its `_id`.
  pub find_one-IsKeyed :
      (p : Doc → Bool) (s : Store) {d : Doc}
      → IsKeyed s
      → c.find_one p s ≡ some d
      → find_by_id c (c.id d) s ≡ some d
  find_one-IsKeyed p s {d} k e =
      c.find_one_lem _ s ∙ find-Keyed p (c.docs s) {d = d} k (sym (c.find_one_lem p s) ∙ e)
