-- ===== src/Common/Async.antt =====
-- `do` notation for asynchronous methods: `await` is a bind of the state-and-exception monad.
use zombiies_api.Common.Errors.{Action, and_then}

infixl 5 ◌>>=◌ ◌>>◌
abbrev pub ◌>>=◌ : {S A B : Type 0} → Action S A → (A → Action S B) → Action S B
◌>>=◌ first next s = and_then (first s) next

abbrev pub ◌>>◌ : {S B : Type 0} → Action S (Unit {0}) → Action S B → Action S B
first >> next = first >>= λ _. next
