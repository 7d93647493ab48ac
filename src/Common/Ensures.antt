-- ===== src/Common/Ensures.antt =====
-- Rules for an invariant of an asynchronous method: whatever its outcome it keeps the invariant of
-- the state, and what it returns without an exception has a property.
use mathlib.Core.Path.{◌≡◌}
use mathlib.Core.Logic.{inl, inr}
use zombiies_api.Common.Errors.{Result, ok, Action, lift, modify, gets, Result-cases}
use zombiies_api.Common.Async.{◌>>=◌}

module _ {S : Type 0} (P : S → Type 0) where
  abbrev pub Ensures : {A : Type 0} → (A → Type 0) → Action S A → Type 0
  Ensures {A} Q m = (w : S) → P w → P (m w).1 × ((a : A) → (m w).0 ≡ ok a → Q a)

  pub Ensures-bind :
      {A B : Type 0} (Q : A → Type 0) (R : B → Type 0) (m : Action S A) (f : A → Action S B)
      → Ensures Q m
      → ((a : A) → Q a → Ensures R (f a))
      → Ensures R (m >>= f)
  Ensures-bind Q R m f h k w p = elim (Result-cases (m w).0) [
    | inl (a, e) ↦ rw e (k a ((h w p).1 a e) (m w).1 (h w p).0)
    | inr (x, e) ↦ rw e ((h w p).0, λ b g. cc)
  ]

  pub Ensures-lift :
      {A : Type 0} (Q : A → Type 0) (r : Result A) → ((a : A) → r ≡ ok a → Q a) → Ensures Q (lift r)
  Ensures-lift Q r h w p = (p, h)

  pub Ensures-gets : {A : Type 0} (f : S → A) → Ensures (λ _. Unit {0}) (gets f)
  Ensures-gets f w p = (p, λ _ _. tt)

  pub Ensures-modify : (f : S → S) → ((w : S) → P w → P (f w)) → Ensures (λ _. Unit {0}) (modify f)
  Ensures-modify f h w p = (h w p, λ _ _. tt)

  -- A method that keeps the invariant, with nothing said of what it returns.
  pub Ensures-keeps :
      {A : Type 0} (m : Action S A) → ((w : S) → P w → P (m w).1) → Ensures (λ _. Unit {0}) m
  Ensures-keeps m h w p = (h w p, λ _ _. tt)
