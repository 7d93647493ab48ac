-- ===== src/Card/Mint/Outcome.antt =====
-- The outcomes of `mint` of src/module/card/card.service.ts on the chain.
use zombiies_api.Common.{
  ℕ, ◌≡◌, refl, ap, ◌∙◌, ◌⊎◌, inl, inr, true, Option, some, List, [], ◌∷◌, ◌++◌, Result, ok, err,
  Error, Result-cases, Option-cases, and_then, recover, type_error, is_ok,
}
use zombiies_api.User.Model.{User}
use zombiies_api.Ether
use zombiies_api.Ether.{Transfer, paid, minted, Receipt}
use zombiies_api.Ether.Wallets.{get_wallet_of_user, owner_wallet}
use zombiies_api.Card.Model.{CardTokenModel, CardType, common}
use zombiies_api.Card.Schema.{Card}
use zombiies_api.Card.Draws.{Draws}
use zombiies_api.Card.Service.{CardEnv, World, CardAction, on_chain, head_of, Proof, bought}
use zombiies_api.Card.Service.History.{history, find_token_of-history}
use zombiies_api.Card.Mint.{
  mint_first, mint_paid, mint, pay_fee, get_random_cards, mint_after, finish,
}

module _ {S U C : Type 0} (env : CardEnv S U C) where
  open env use {card_model, client}
  open client use {chain}

  abbrev pub paid_fee : User → ℕ → List Transfer → List Transfer
  paid_fee user fee before =
      before ++ paid (get_wallet_of_user client user).address (owner_wallet client).address fee ∷ []

  -- The body of the `try` either failed with the chain as it was, or minted the first drawn card.
  abbrev pub MintFirst : ℕ → Result Draws → World S U C → Result (List ℕ) × World S U C → Type 0
  MintFirst address draws w out =
      ((x : Error) × (out.0 ≡ err x) × (history env out.1 ≡ history env w))
      ⊎ ((ids : List ℕ) × (d : Draws) × (c : Card) × (proof : ℕ) × (out.0 ≡ ok ids)
          × (draws ≡ ok d)
          × (head_of d.cards ≡ some c)
          × (history env out.1 ≡ history env w ++ minted address c.token_uri proof ∷ []))

  mint_first-MintFirst :
      (address : ℕ) (proof : Draws → Proof) (draws : Result Draws) (w : World S U C)
      → MintFirst address draws w (mint_first env address proof draws w)
  mint_first-MintFirst address proof (err x) w = inl (x, refl, refl)
  mint_first-MintFirst address proof (ok d) w =
      let stored = on_chain env (env.put_object (proof d)) w in
      let kept = env.put_object_lem (proof d) w.chain_state in
      elim (Result-cases stored.0) [
        | inr (x, p) ↦ rw (p, and_then) (inl (x, refl, kept))
        | inl (uri, p) ↦ elim (Option-cases (head_of d.cards)) [
          | inl n ↦ rw (p, and_then) (rw (n, and_then) (inl (type_error, refl, kept)))
          | inr (c, n) ↦
              let law = chain.minted_lem address c.token_uri uri stored.1.chain_state in
              elim (Result-cases
                (Ether.mint_token chain address c.token_uri uri stored.1.chain_state).0) [
                  | inr (x, m) ↦
                      rw (p, and_then)
                        (rw (n, and_then) (rw (m, and_then) (inl (x, refl, (rw m at law) ∙ kept))))
                  | inl (r, m) ↦
                      rw (p, and_then)
                        (rw (n, and_then)
                          (rw (m, and_then)
                            (inr (
                              _,
                              d,
                              c,
                              uri,
                              refl,
                              refl,
                              n,
                              (rw m at law)
                                  ∙ ap (λ ts. ts ++ minted address c.token_uri uri ∷ []) kept,
                            ))))
                ]
        ]
      ]

  abbrev pub minting : User → Receipt → Result Draws → CardAction env (List ℕ)
  minting user receipt draws =
      mint_first env (get_wallet_of_user client user).address (bought receipt.transaction_hash)
        draws

  abbrev pub send_back : User → ℕ → C → Result ℕ × C
  send_back user fee =
      chain.send_transaction (owner_wallet client).address (get_wallet_of_user client user).address
        fee

  -- The body of the `try` failed with the chain as it was. The transaction that sends the fee back
  -- was sent, and the call failed with the error of the body; or the sending failed, and the call
  -- failed with the error of the sending.
  abbrev pub Refunded :
      User
      → ℕ
      → Receipt
      → Result Draws
      → World S U C
      → Result (Option CardTokenModel) × World S U C
      → Type 0
  Refunded user fee receipt draws w out =
      let first = minting user receipt draws w in
      let sent = send_back user fee first.1.chain_state in
      (x : Error) × (first.0 ≡ err x)
      × (history env first.1 ≡ history env w)
      × (out.1.chain_state ≡ sent.1)
      × (((is_ok sent.0 ≡ true) × (out.0 ≡ err x))
          ⊎ ((y : Error) × (sent.0 ≡ err y) × (out.0 ≡ err y)))

  -- The first drawn card was minted to the user.
  abbrev pub Minted : User → Result Draws → World S U C → World S U C → Type 0
  Minted user draws w v =
      (d : Draws) × (c : Card) × (proof : ℕ) × (draws ≡ ok d)
      × (head_of d.cards ≡ some c)
      × (history env v
          ≡ history env w ++ minted (get_wallet_of_user client user).address c.token_uri proof ∷ [])

  mint_paid-outcome :
      (user : User) (fee : ℕ) (receipt : Receipt) (draws : Result Draws) (w : World S U C)
      → let out = mint_paid env user (fee, receipt) draws w in
        Refunded user fee receipt draws w out ⊎ Minted user draws w out.1
  unfolding mint_paid
  mint_paid-outcome user fee receipt draws w =
      let address = (get_wallet_of_user client user).address in
      let first = minting user receipt draws w in
      elim (mint_first-MintFirst address (bought receipt.transaction_hash) draws w) [
        | inl (x, e, kept) ↦ elim (Result-cases (send_back user fee first.1.chain_state).0) [
          | inl (tx, s) ↦
              rw (e, recover) (rw (s, and_then) (inl (x, refl, kept, refl, inl (refl, refl))))
          | inr (y, s) ↦
              rw (e, recover) (rw (s, and_then) (inl (x, refl, kept, refl, inr (y, refl, refl))))
        ]
        | inr (ids, d, c, proof, e, drawn, head, history') ↦
            rw (e, recover)
              (inr (d, c, proof, drawn, head, find_token_of-history env ids first.1 ∙ history'))
      ]

  -- The fee of `pay_fee`, or a failure with nothing paid.
  pay_fee-cases :
      (user : User) (w : World S U C)
      → let out = pay_fee env user w in
        ((x : Error) × (out.0 ≡ err x) × (history env out.1 ≡ history env w))
        ⊎ ((fee : ℕ) × (receipt : Receipt) × (out.0 ≡ ok (fee, receipt))
            × (out.1.cards ≡ w.cards)
            × (history env out.1 ≡ paid_fee user fee (history env w)))
  pay_fee-cases user w =
      let asked = chain.get_mint_fee w.chain_state in
      let kept = chain.get_mint_fee_lem w.chain_state in
      elim (Result-cases asked.0) [
        | inr (x, f) ↦ rw (f, and_then) (inl (x, refl, kept))
        | inl (fee, f) ↦
            let from = (get_wallet_of_user client user).address in
            let to = (owner_wallet client).address in
            let law = chain.paid_lem from to fee asked.1 in
            elim (Result-cases (Ether.pay chain from to fee asked.1).0) [
              | inr (x, p) ↦
                  rw (f, and_then) (rw (p, and_then) (inl (x, refl, (rw p at law) ∙ kept)))
              | inl (receipt, p) ↦
                  rw (f, and_then)
                    (rw (p, and_then)
                      (inr (
                        fee,
                        receipt,
                        refl,
                        refl,
                        (rw p at law) ∙ ap (λ ts. ts ++ paid from to fee ∷ []) kept,
                      )))
            ]
      ]

  -- The outcomes of `mint`, whose loop draws from the cards stored before the call, seeded by the
  -- hash of the payment.
  abbrev pub MintOutcome :
      ℕ → User → CardType → World S U C → Result (Option CardTokenModel) × World S U C → Type 0
  MintOutcome fuel user type w out =
      let (paid_result, v) = pay_fee env user w in
      ((x : Error) × (paid_result ≡ err x) × (out ≡ (err x, v)) × (history env v ≡ history env w))
      ⊎ ((fee : ℕ) × (receipt : Receipt) × (draws : Result Draws) × (paid_result
            ≡ ok (fee, receipt))
          × (history env v ≡ paid_fee user fee (history env w))
          × (get_random_cards env fuel receipt.transaction_hash type 1 1 common w.cards
              ≡ some draws)
          × (Refunded user fee receipt draws v out ⊎ Minted user draws v out.1))

  -- With fuel enough for the draw that the hash of a payment seeds, `mint` ends, in one of four
  -- outcomes. The fee was not paid: the call failed with the error of the payment, and nothing was
  -- added to the chain. Or the fee was paid, and the first drawn card was minted to the user. Or it
  -- was paid, the minting failed, and nothing was added to the chain by it: then the transaction
  -- that sends the fee back was sent, which is not waited for, and the call failed with the error of
  -- the minting; or the sending failed too, and the call failed with the error of the sending.
  pub mint-MintOutcome :
      (fuel : ℕ) (user : User) (type : CardType) (w : World S U C)
      → ((p : ℕ × Receipt)
          → (pay_fee env user w).0 ≡ ok p
          → (draws : Result Draws) × (get_random_cards env fuel p.1.transaction_hash type 1 1 common
                w.cards
              ≡ some draws))
      → (out : Result (Option CardTokenModel) × World S U C) × (mint env fuel user type w
          ≡ some out)
        × MintOutcome fuel user type w out
  unfolding mint
  mint-MintOutcome fuel user type w enough =
      let v = (pay_fee env user w).1 in
      elim (pay_fee-cases user w) [
        | inl (x, p, h) ↦ ((err x, v), rw (p, mint_after) refl, inl (x, p, refl, h))
        | inr (fee, receipt, p, cards, h) ↦
            let (draws, n) = enough (fee, receipt) p in
            let drawn : get_random_cards env fuel receipt.transaction_hash type 1 1 common v.cards
                ≡ some draws =
              rw cards n in
            (
              mint_paid env user (fee, receipt) draws v,
              rw (p, mint_after) (rw (drawn, finish) refl),
              inr (fee, receipt, draws, p, h, n, mint_paid-outcome user fee receipt draws v),
            )
      ]
