-- ===== src/Card/Receipt.antt =====
-- src/common/util/contract.util.ts: the tokens that a transaction's receipt transfers.
mod Tests
use zombiies_api.Common.{
  ℕ, ◌≡◌, refl, ap, Bool, true, false, Option, none, some, List, [], ◌∷◌, map, if◌then◌else◌,
  filter, inl, inr, Bool-cases,
}

pub record TransferArgs : Type 0 where
  pub from : ℕ
  pub to : ℕ
  pub token_id : ℕ

-- `is_transfer` says that the event's name is `Transfer`; an event that ethers cannot decode has no
-- arguments.
pub record Event : Type 0 where
  pub is_transfer : Bool
  pub args : Option TransferArgs

-- The callback of `map`; no middleware is one that accepts everything.
abbrev pub token_id_of : (ℕ → ℕ → Bool) → Event → Option ℕ
token_id_of middleware e = elim e.args [
  | none ↦ none
  | some a ↦ if middleware a.from a.to then some a.token_id else none
]

abbrev pub keep_defined : Option ℕ → List ℕ → List ℕ
keep_defined none ids = ids
keep_defined (some id) ids = id ∷ ids

abbrev pub defined : List (Option ℕ) → List ℕ
defined [] = []
defined (id ∷ ids) = keep_defined id (defined ids)

unfoldable pub get_token_ids_from_receipt : (ℕ → ℕ → Bool) → List Event → List ℕ
get_token_ids_from_receipt middleware events =
    defined (map (token_id_of middleware) (filter (λ e. e.is_transfer) events))

-- The same in one pass: the token of an event that is a decoded transfer from and to accepted
-- addresses.
abbrev pub token_of_transfer : (ℕ → ℕ → Bool) → Event → Option ℕ
token_of_transfer middleware e = if e.is_transfer then token_id_of middleware e else none

abbrev pub transferred : (ℕ → ℕ → Bool) → List Event → List ℕ
transferred middleware [] = []
transferred middleware (e ∷ es) =
    keep_defined (token_of_transfer middleware e) (transferred middleware es)

-- The three passes over the events give, in the order of the events, the token of every decoded
-- transfer whose addresses the middleware accepts, and nothing else.
get_token_ids_from_receipt-transferred :
    (middleware : ℕ → ℕ → Bool) (events : List Event)
    → get_token_ids_from_receipt middleware events ≡ transferred middleware events
unfolding get_token_ids_from_receipt
get_token_ids_from_receipt-transferred middleware [] = refl
get_token_ids_from_receipt-transferred middleware (e ∷ es) =
    let rest = get_token_ids_from_receipt-transferred middleware es in
    elim (Bool-cases e.is_transfer) [
      | inl t ↦ rw t (ap (keep_defined (token_id_of middleware e)) rest)
      | inr t ↦ rw t rest
    ]
