-- ===== src/Card/Seed/Copies.antt =====
-- The copies of a card that a round of `seedToken` of src/common/command/seed.command.ts mints.
use mathlib.Core.List.{append-nil, append_assoc}
use zombiies_api.Common.{
  ℕ, zero, suc, ◌≤◌, ◌≡◌, refl, sym, ap, ◌∙◌, inl, inr, true, some, List, [], ◌∷◌, ◌++◌, Result,
  and_then, is_ok, arith, Result-cases,
}
use zombiies_api.User.Model.{User}
use zombiies_api.Ether
use zombiies_api.Ether.{Transfer, minted}
use zombiies_api.Ether.Wallets.{get_wallet_of_user}
use zombiies_api.Card.Receipt.{get_token_ids_from_receipt}
use zombiies_api.Card.Schema.{Card}
use zombiies_api.Card.Service.{CardEnv, World, on_chain, find_token_of, seed}
use zombiies_api.Card.Service.History.{history, find_token_of-history}
use zombiies_api.Card.Seed.{mint_copy, mint_copies, mint_card}

-- `n` transfers of one kind.
abbrev pub copies : ℕ → Transfer → List Transfer
copies zero t = []
copies (suc n) t = t ∷ copies n t

module _ {S U C : Type 0} (env : CardEnv S U C) where
  open env use {card_model, user_model, client}
  open client use {chain}

  find_token_of-cards :
      (ids : List ℕ) (w : World S U C) → (find_token_of env ids w).1.cards ≡ w.cards
  find_token_of-cards [] w = refl
  find_token_of-cards (id ∷ ids) w =
      elim (Result-cases (chain.tokens_in (id ∷ []) w.chain_state).0) [
        | inr (x, t) ↦ rw (t, and_then) refl
        | inl (ts, t) ↦ rw (t, and_then) refl
      ]

  -- At most `n` transfers of a kind, and `n` of them in a call that returns.
  abbrev pub Adds : ℕ → Transfer → World S U C → Result (Unit {0}) × World S U C → Type 0
  Adds n t w out =
      (k : ℕ) × (k ≤ n)
      × (is_ok out.0 ≡ true → k ≡ n)
      × (history env out.1 ≡ history env w ++ copies k t)
      × (out.1.cards ≡ w.cards)

  mint_copy-Adds :
      (address proof : ℕ) (c : Card) (w : World S U C)
      → Adds 1 (minted address c.token_uri proof) w (mint_copy env address (some c) proof w)
  mint_copy-Adds address proof c w =
      let t = minted address c.token_uri proof in
      let sent = on_chain env (Ether.mint_token chain address c.token_uri proof) w in
      let law = chain.minted_lem address c.token_uri proof w.chain_state in
      elim (Result-cases sent.0) [
        | inr (x, m) ↦
            rw (m, and_then)
              (0, omega arith, (λ e. cc), (rw m at law) ∙ sym (append-nil (history env w)), refl)
        | inl (r, m) ↦
            let ids = get_token_ids_from_receipt (λ from to. true) r.events in
            let read = find_token_of-history env ids sent.1 ∙ (rw m at law) in
            elim (Result-cases (find_token_of env ids sent.1).0) [
              | inr (x, f) ↦
                  rw (m, and_then)
                    (rw (f, and_then)
                      (1, omega arith, (λ e. cc), read, find_token_of-cards ids sent.1))
              | inl (o, f) ↦
                  rw (m, and_then)
                    (rw (f, and_then)
                      (1, omega arith, (λ e. refl), read, find_token_of-cards ids sent.1))
            ]
      ]

  mint_copies-Adds :
      (address proof n : ℕ) (c : Card) (w : World S U C)
      → Adds n (minted address c.token_uri proof) w (mint_copies env address (some c) proof n w)
  unfolding mint_copies
  mint_copies-Adds address proof zero c w =
      (0, omega arith, (λ e. refl), sym (append-nil (history env w)), refl)
  mint_copies-Adds address proof (suc n) c w =
      let t = minted address c.token_uri proof in
      let (k, le, all, h, s) = mint_copy-Adds address proof c w in
      elim (Result-cases (mint_copy env address (some c) proof w).0) [
        | inr (x, m) ↦ rw (m, and_then) (k, omega arith, (λ e. cc), h, s)
        | inl (u, m) ↦
            let next = (mint_copy env address (some c) proof w).1 in
            let (j, le', all', h', s') = mint_copies-Adds address proof n c next in
            let one : k ≡ 1 = (rw m at all) refl in
            rw (m, and_then)
              (
                suc j,
                omega arith,
                (λ e. ap suc (all' e)),
                h'
                    ∙ ap (λ ts. ts ++ copies j t) h
                    ∙ append_assoc (history env w) (copies k t) (copies j t)
                    ∙ ap (λ ts. history env w ++ ts) (ap (λ i. copies i t ++ copies j t) one),
                s' ∙ s,
              )
      ]

  pub mint_card-Adds :
      (user : User) (c : Card) (count : ℕ) (w : World S U C)
      → (proof : ℕ) × Adds count
          (minted (get_wallet_of_user client user).address c.token_uri proof)
          w
          (mint_card env user (some c) count w)
  unfolding mint_card mint_copies
  mint_card-Adds user c count w =
      let stored = on_chain env (env.put_object seed) w in
      let kept = env.put_object_lem seed w.chain_state in
      elim (Result-cases stored.0) [
        | inr (x, p) ↦
            rw (p, and_then)
              (0, (0, omega arith, (λ e. cc), kept ∙ sym (append-nil (history env w)), refl))
        | inl (uri, p) ↦
            let address = (get_wallet_of_user client user).address in
            let (k, le, all, h, s) = mint_copies-Adds address uri count c stored.1 in
            rw (p, and_then)
              (
                uri,
                (
                  k,
                  le,
                  all,
                  h ∙ ap (λ ts. ts ++ copies k (minted address c.token_uri uri)) kept,
                  s,
                ),
              )
      ]
