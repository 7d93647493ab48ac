-- ===== src/Card/Service/History.antt =====
-- The chain under the calls of src/module/card/card.service.ts that only read.
use zombiies_api.Common.{
  ℕ, ◌≡◌, refl, ◌∙◌, inl, inr, List, [], ◌∷◌, Result-cases, Bool-cases, and_then, ◌==◌,
}
use zombiies_api.Ether.{Transfer}
use zombiies_api.Card.Service.{
  CardEnv, World, on_chain, find_token_of, check_owners, find_card_tokens,
}

module _ {S U C : Type 0} (env : CardEnv S U C) where
  open env use {client}
  open client use {chain}

  abbrev pub history : World S U C → List Transfer
  history w = chain.history w.chain_state

  pub find_card_tokens-history :
      (ids : List ℕ) (w : World S U C)
      → (history (find_card_tokens env ids w).1 ≡ history w)
        × ((find_card_tokens env ids w).1.cards ≡ w.cards)
  find_card_tokens-history ids w = elim (Result-cases (chain.tokens_in ids w.chain_state).0) [
    | inr (x, t) ↦ rw (t, and_then) (chain.tokens_in_lem ids w.chain_state, refl)
    | inl (ts, t) ↦ rw (t, and_then) (chain.tokens_in_lem ids w.chain_state, refl)
  ]

  pub find_token_of-history :
      (ids : List ℕ) (w : World S U C) → history (find_token_of env ids w).1 ≡ history w
  find_token_of-history [] w = refl
  find_token_of-history (id ∷ ids) w =
      elim (Result-cases (chain.tokens_in (id ∷ []) w.chain_state).0) [
        | inr (x, t) ↦ rw (t, and_then) (chain.tokens_in_lem (id ∷ []) w.chain_state)
        | inl (ts, t) ↦ rw (t, and_then) (chain.tokens_in_lem (id ∷ []) w.chain_state)
      ]

  pub check_owners-history :
      (address : ℕ) (ids : List ℕ) (w : World S U C)
      → (history (check_owners env address ids w).1 ≡ history w)
        × ((check_owners env address ids w).1.cards ≡ w.cards)
  unfolding check_owners
  check_owners-history address [] w = (refl, refl)
  check_owners-history address (id ∷ ids) w =
      let asked = chain.owner_of id w.chain_state in
      let kept = chain.owner_of_lem id w.chain_state in
      elim (Result-cases asked.0) [
        | inr (x, a) ↦ rw (a, and_then) (kept, refl)
        | inl (owner, a) ↦ elim (Bool-cases (owner == address)) [
          | inr strange ↦ rw (a, and_then) (rw (strange, and_then) (kept, refl))
          | inl same ↦
              let rest = check_owners-history address ids (on_chain env (chain.owner_of id) w).1 in
              rw (a, and_then) (rw (same, and_then) (rest.0 ∙ kept, rest.1))
        ]
      ]
