-- ===== src/Common/Keys.antt =====
-- Collections in which no two documents share an `_id`: what every write keeps, and what an update
-- of the one document that a query found does.
use Prim.Native.Nat.{ℕ, ◌+◌, ◌≤◌}
use mathlib.Core.Path.{◌≡◌, refl, sym, ap, ◌∙◌}
use mathlib.Core.Logic.{inl, inr}
use mathlib.Core.Bool.{Bool, true, false, not}
use mathlib.Core.Option.{none, some}
use mathlib.Core.List.{List, [], ◌∷◌, ◌++◌, map}
use native.Mathlib.Omega.{arith}
use zombiies_api.Common.Tests.{◌==◌, if◌then◌else◌, Bool-cases}
use zombiies_api.Common.Lists.{length, find, filter, any, All}
use zombiies_api.Common.Ports.{Collection, find_by_id, update_one, delete_one}
use zombiies_api.Common.Documents.{Keyed, IsKeyed, find_one-IsKeyed}

abbrev pub one_if : Bool → ℕ
one_if true = 1
one_if false = 0

module _ {ℓ} {A : Type ℓ} where
  -- Nothing passes a test that `find` did not find.
  pub none_found-All : (p : A → Bool) (xs : List A) → find p xs ≡ none → All (λ x. p x ≡ false) xs
  none_found-All p [] h = tt
  none_found-All p (x ∷ xs) h = elim (Bool-cases (p x)) [
    | inl t ↦ ground (arith, h, t)
    | inr t ↦ (t, none_found-All p xs (rw t at h))
  ]

  pub none_filtered : (p : A → Bool) (xs : List A) → find p xs ≡ none → filter p xs ≡ []
  none_filtered p [] h = refl
  none_filtered p (x ∷ xs) h = elim (Bool-cases (p x)) [
    | inl t ↦ ground (arith, h, t)
    | inr t ↦ rw t (none_filtered p xs (rw t at h))
  ]

  pub filter_keeps_none :
      (p q : A → Bool) (xs : List A) → find p xs ≡ none → find p (filter q xs) ≡ none
  filter_keeps_none p q [] h = refl
  filter_keeps_none p q (x ∷ xs) h = ground (arith, filter_keeps_none p q xs)

  map_if_keeps_none :
      (p q : A → Bool) (f : A → A) (xs : List A)
      → ((x : A) → p (f x) ≡ p x)
      → find p xs ≡ none
      → find p (map (λ x. if q x then f x else x) xs) ≡ none
  map_if_keeps_none p q f [] k h = refl
  map_if_keeps_none p q f (x ∷ xs) k h = ground (arith, k x, map_if_keeps_none p q f xs k)

  append_keeps_none :
      (p : A → Bool) (xs : List A) (y : A)
      → find p xs ≡ none
      → p y ≡ false
      → find p (xs ++ y ∷ []) ≡ none
  append_keeps_none p [] y h e = ground arith
  append_keeps_none p (x ∷ xs) y h e = ground (arith, append_keeps_none p xs y)

  map-none :
      (p : A → Bool) (f : A → A) (xs : List A)
      → find p xs ≡ none
      → map (λ x. if p x then f x else x) xs ≡ xs
  map-none p f [] h = refl
  map-none p f (x ∷ xs) h = ground (arith, map-none p f xs)

  -- How many elements pass a test.
  abbrev pub count : (A → Bool) → List A → ℕ
  count p xs = length (filter p xs)

  pub count-filter : (p q : A → Bool) (xs : List A) → count p (filter q xs) ≤ count p xs
  count-filter p q [] = omega arith
  count-filter p q (x ∷ xs) = ground (arith, count-filter p q xs)

  pub count-append_one :
      (p : A → Bool) (xs : List A) (y : A) → count p (xs ++ y ∷ []) ≡ count p xs + one_if (p y)
  count-append_one p [] y = ground arith
  count-append_one p (x ∷ xs) y = ground (arith, count-append_one p xs y)

  count_zero : (p : A → Bool) (xs : List A) → count p xs ≤ 0 → find p xs ≡ none
  count_zero p [] h = refl
  count_zero p (x ∷ xs) h = ground (arith, h, count_zero p xs)

  found_counts :
      (p q : A → Bool) (xs : List A) {x : A} → find q xs ≡ some x → p x ≡ true → 1 ≤ count p xs
  found_counts p q [] e t = cc
  found_counts p q (y ∷ ys) {x} e t = elim (Bool-cases (q y)) [
    | inl h ↦
        let same : y ≡ x = ground (arith, e, h) in
        let holds : p y ≡ true = rw same t in rw holds (omega arith)
    | inr h ↦ ground (arith, found_counts p q ys {x = x} (rw h at e) t)
  ]

  -- Without the elements that pass `q`, nothing passes a test that one element at most passes.
  filter-single_none :
      (p q : A → Bool) (xs : List A) {x : A}
      → count p xs ≤ 1
      → find q xs ≡ some x
      → p x ≡ true
      → find p (filter (λ y. not (q y)) xs) ≡ none
  filter-single_none p q [] h e t = refl
  filter-single_none p q (y ∷ ys) {x} h e t = elim (Bool-cases (q y)) [
    | inl k ↦
        let same : y ≡ x = ground (arith, e, k) in
        let holds : p y ≡ true = rw same t in
        let rest : count p ys ≤ 0 = ground (arith, h, holds) in
        rw k (filter_keeps_none p (λ z. not (q z)) ys (count_zero p ys rest))
    | inr k ↦
        let later = rw k at e in
        let some_left = found_counts p q ys {x = x} later t in
        ground (arith, h, k, some_left, filter-single_none p q ys {x = x})
  ]

module _ {Store Doc : Type 0} (c : Collection Store Doc) where
  Keyed-map_if :
      (q : Doc → Bool) (f : Doc → Doc) (ds : List Doc)
      → ((d : Doc) → c.id (f d) ≡ c.id d)
      → Keyed c ds
      → Keyed c (map (λ d. if q d then f d else d) ds)
  Keyed-map_if q f [] k h = tt
  Keyed-map_if q f (d ∷ ds) k h = elim (Bool-cases (q d)) [
    | inl t ↦
        rw (t, k d)
          (
            map_if_keeps_none (λ x. c.id x == c.id d) q f ds (λ x. ap (λ n. n == c.id d) (k x)) h.0,
            Keyed-map_if q f ds k h.1,
          )
    | inr t ↦ rw t (
      map_if_keeps_none (λ x. c.id x == c.id d) q f ds (λ x. ap (λ n. n == c.id d) (k x)) h.0,
      Keyed-map_if q f ds k h.1,
    )
  ]

  Keyed-filter : (q : Doc → Bool) (ds : List Doc) → Keyed c ds → Keyed c (filter q ds)
  Keyed-filter q [] h = tt
  Keyed-filter q (d ∷ ds) h = elim (Bool-cases (q d)) [
    | inl t ↦ rw t (filter_keeps_none (λ x. c.id x == c.id d) q ds h.0, Keyed-filter q ds h.1)
    | inr t ↦ rw t (Keyed-filter q ds h.1)
  ]

  Keyed-append :
      (ds : List Doc) (y : Doc)
      → any (λ d. c.id d == c.id y) ds ≡ false
      → Keyed c ds
      → Keyed c (ds ++ y ∷ [])
  Keyed-append [] y e h = (refl, tt)
  Keyed-append (d ∷ ds) y e h = elim (Bool-cases (c.id d == c.id y)) [
    | inl t ↦ ground (arith, e, t)
    | inr t ↦ (
      append_keeps_none (λ x. c.id x == c.id d) ds y h.0 (ground (arith, t)),
      Keyed-append ds y (rw t at e) h.1,
    )
  ]

  pub IsKeyed-update :
      (q : Doc → Bool) (f : Doc → Doc) (s : Store)
      → ((d : Doc) → c.id (f d) ≡ c.id d)
      → IsKeyed c s
      → IsKeyed c (c.update_many q f s)
  IsKeyed-update q f s k h = rw c.update_many_lem (Keyed-map_if q f (c.docs s) k h)

  pub IsKeyed-delete : (q : Doc → Bool) (s : Store) → IsKeyed c s → IsKeyed c (c.delete_many q s)
  IsKeyed-delete q s h = rw c.delete_many_lem (Keyed-filter _ (c.docs s) h)

  pub IsKeyed-create :
      (f : ℕ → Doc) (s : Store)
      → ((i : ℕ) → c.id (f i) ≡ i)
      → IsKeyed c s
      → IsKeyed c (c.create f s)
  IsKeyed-create f s k h =
      let fresh : any (λ d. c.id d == c.id (f (c.new_id s))) (c.docs s) ≡ false =
        rw (k (c.new_id s)) (c.new_id_lem s) in
      rw c.create_lem (Keyed-append (c.docs s) _ fresh h)

  -- An update by `_id` changes only the document of that `_id`.
  All-map_found {κ} :
      (P : Doc → Type κ) (i : ℕ) (f : Doc → Doc) (ds : List Doc) {d : Doc}
      → Keyed c ds
      → find (λ x. c.id x == i) ds ≡ some d
      → P (f d)
      → All P ds
      → All P (map (λ x. if c.id x == i then f x else x) ds)
  All-map_found P i f [] k e p h = tt
  All-map_found P i f (x ∷ xs) {d} k e p h = elim (Bool-cases (c.id x == i)) [
    | inl t ↦
        let same : x ≡ d = ground (arith, e, t) in
        let key : c.id x ≡ i = ground (arith, t) in
        let none_left : find (λ y. c.id y == i) xs ≡ none = rw key at (k.0) in
        let first : P (f x) = rw same p in
        let others : All P (map (λ y. if c.id y == i then f y else y) xs) =
          rw (map-none (λ y. c.id y == i) f xs none_left) h.1 in
        rw t (first, others)
    | inr t ↦ rw t (h.0, All-map_found P i f xs {d = d} k.1 (rw t at e) p h.1)
  ]

  count-map_found :
      (p : Doc → Bool) (i : ℕ) (f : Doc → Doc) (ds : List Doc) {d : Doc}
      → Keyed c ds
      → find (λ x. c.id x == i) ds ≡ some d
      → count p (map (λ x. if c.id x == i then f x else x) ds) + one_if (p d)
        ≡ count p ds + one_if (p (f d))
  count-map_found p i f [] k e = cc
  count-map_found p i f (x ∷ xs) {d} k e = elim (Bool-cases (c.id x == i)) [
    | inl t ↦
        let same : x ≡ d = ground (arith, e, t) in
        let key : c.id x ≡ i = ground (arith, t) in
        let none_left : find (λ y. c.id y == i) xs ≡ none = rw key at (k.0) in
        let rest = map-none (λ y. c.id y == i) f xs none_left in
        rw (t, rest, sym same) (ground arith)
    | inr t ↦
        let rest = count-map_found p i f xs {d = d} k.1 (rw t at e) in rw t (ground (arith, rest))
  ]

  pub All-update_found :
      (P : Doc → Type 0) (q : Doc → Bool) (f : Doc → Doc) (s : Store) {d : Doc}
      → IsKeyed c s
      → c.find_one q s ≡ some d
      → P (f d)
      → All P (c.docs s)
      → All P (c.docs (update_one c (c.id d) f s))
  All-update_found P q f s {d} k e p h = rw c.update_many_lem (
      All-map_found P (c.id d) f (c.docs s) {d = d} k
        (sym (c.find_one_lem _ s) ∙ find_one-IsKeyed c q s k e) p h)

  pub count-update_found :
      (p q : Doc → Bool) (f : Doc → Doc) (s : Store) {d : Doc}
      → IsKeyed c s
      → c.find_one q s ≡ some d
      → count p (c.docs (update_one c (c.id d) f s)) + one_if (p d)
        ≡ count p (c.docs s) + one_if (p (f d))
  count-update_found p q f s {d} k e = rw c.update_many_lem (
      count-map_found p (c.id d) f (c.docs s) {d = d} k
        (sym (c.find_one_lem _ s) ∙ find_one-IsKeyed c q s k e))

  delete_finds_none : (p : Doc → Bool) (ds : List Doc) → find p (filter (λ d. not (p d)) ds) ≡ none
  delete_finds_none p [] = refl
  delete_finds_none p (d ∷ ds) = ground (arith, delete_finds_none p ds)

  -- A test that one document at most passes finds nothing once that document is deleted.
  pub find_one-delete_one :
      (p : Doc → Bool) (i : ℕ) (s : Store) {d : Doc}
      → count p (c.docs s) ≤ 1
      → find_by_id c i s ≡ some d
      → p d ≡ true
      → c.find_one p (delete_one c i s) ≡ none
  find_one-delete_one p i s {d} h e t =
      rw (c.find_one_lem, c.delete_many_lem)
        (filter-single_none p (λ x. c.id x == i) (c.docs s) {x = d} h (sym (c.find_one_lem _ s) ∙ e)
          t)

  pub find_by_id-delete_one : (i : ℕ) (s : Store) → find_by_id c i (delete_one c i s) ≡ none
  find_by_id-delete_one i s =
      simp (c.find_one_lem, c.delete_many_lem) (delete_finds_none _ (c.docs s))
