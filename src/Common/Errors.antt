-- ===== src/Common/Errors.antt =====
-- The exceptions of `@nestjs/common` that the services throw, and the monad of an asynchronous
-- method: it threads the state and may end in an exception, and what was written before the
-- exception stays written.
use Prim.Native.String.{String}
use mathlib.Core.Path.{◌≡◌, refl}
use mathlib.Core.Logic.{◌≢◌, ◌⊎◌, inl, inr}
use mathlib.Core.Bool.{Bool, true, false}
use mathlib.Core.Option.{Option, none, some}

-- An interpolated message is given by its constant part. `type_error` is JavaScript's own
-- exception for a property read of `undefined` or `null`; `external` is one that a third-party
-- client throws.
pub data Error : Type 0 where
  bad_request forbidden not_found unauthorized internal external : String → Error
  -- `new Error(…)`.
  plain_error : String → Error
  type_error : Error

-- What a method returns, or the exception that it throws.
pub data Result {ℓ} (A : Type ℓ) : Type ℓ where
  err : Error → Result A
  ok : A → Result A

abbrev pub is_ok {ℓ} : {A : Type ℓ} → Result A → Bool
is_ok (err x) = false
is_ok (ok a) = true

abbrev pub or_throw {ℓ} : {A : Type ℓ} → Option A → Error → Result A
or_throw none e = err e
or_throw (some a) e = ok a

-- `if (c) { throw e; }`
abbrev pub throw_if : Bool → Error → Result (Unit {0})
throw_if true e = err e
throw_if false e = ok tt

-- The synchronous part of a method: exceptions alone.
module _ {ℓ κ} {A : Type ℓ} {B : Type κ} where
  infixl 5 ◌>>=◌
  abbrev pub ◌>>=◌ : Result A → (A → Result B) → Result B
  err x >>= next = err x
  ok value >>= next = next value

module _ {κ} {B : Type κ} where
  infixl 5 ◌>>◌
  abbrev pub ◌>>◌ : Result (Unit {0}) → Result B → Result B
  check >> next = check >>= λ _. next

-- An asynchronous method over a state.
abbrev pub Action : Type 0 → Type 0 → Type 0
Action S A = S → Result A × S

abbrev pub and_then : {S A B : Type 0} → Result A × S → (A → Action S B) → Result B × S
and_then (ok a, s) f = f a s
and_then (err e, s) f = (err e, s)

-- A synchronous part inside an asynchronous method.
abbrev pub lift : {S A : Type 0} → Result A → Action S A
lift r s = (r, s)

abbrev pub modify : {S : Type 0} → (S → S) → Action S (Unit {0})
modify f s = (ok tt, f s)

abbrev pub gets : {S A : Type 0} → (S → A) → Action S A
gets f s = (ok (f s), s)

module _ {ℓ} {A : Type ℓ} where
  pub Result-cases : (m : Result A) → ((a : A) × (m ≡ ok a)) ⊎ ((x : Error) × (m ≡ err x))
  Result-cases (err x) = inr (x, refl)
  Result-cases (ok a) = inl (a, refl)

  pub is_ok-cases : (m : Result A) → is_ok m ≡ true → (a : A) × (m ≡ ok a)
  is_ok-cases (err x) h = cc
  is_ok-cases (ok a) h = (a, refl)

pub ok-injective {ℓ} : {A : Type ℓ} {a b : A} → ok a ≡ ok b → a ≡ b
ok-injective e = cc

-- A method whose result is replaced in the end leaves the state that it left.
pub and_then-lift :
    {S A B : Type 0} (m : Result A × S) (b : B) → (and_then m (λ _. lift (ok b))).1 ≡ m.1
and_then-lift (err x, s) b = refl
and_then-lift (ok a, s) b = refl

-- A method that returns has returned from its first step.
pub and_then-ok :
    {S A B : Type 0} (m : Result A × S) (f : A → Action S B) {b : B}
    → (and_then m f).0 ≡ ok b
    → (a : A) × (m.0 ≡ ok a) × (and_then m f ≡ f a m.1)
and_then-ok (err x, s) f e = cc
and_then-ok (ok a, s) f e = (a, refl, refl)

-- `try { … } catch (e) { … }`.
abbrev pub recover : {S A : Type 0} → Result A × S → (Error → Action S A) → Result A × S
recover (ok a, s) handler = (ok a, s)
recover (err x, s) handler = handler x s

abbrev pub try_catch : {S A : Type 0} → Action S A → (Error → Action S A) → Action S A
try_catch m handler s = recover (m s) handler

throws_again :
    {S A B : Type 0} (m : Result B × S) (x : Error) {a : A}
    → (and_then m (λ _. lift {A = A} (err x))).0 ≢ ok a
throws_again (ok b, s) x e = cc
throws_again (err y, s) x e = cc

-- A handler that throws again: a method that returns had no exception to handle.
pub recover-ok :
    {S A B : Type 0} (m : Result A × S) (undo : Error → Action S B) {a : A}
    → (recover m (λ x t. and_then (undo x t) (λ _. lift (err x)))).0 ≡ ok a
    → (m.0 ≡ ok a) × ((recover m (λ x t. and_then (undo x t) (λ _. lift (err x)))).1 ≡ m.1)
recover-ok (ok b, s) undo e = (e, refl)
recover-ok (err x, s) undo e = absurd (throws_again (undo x s) x e)
