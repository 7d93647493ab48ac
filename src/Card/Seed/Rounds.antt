-- ===== src/Card/Seed/Rounds.antt =====
-- What the rounds of `seedToken` of src/common/command/seed.command.ts add to the chain.
use mathlib.Core.List.{append-nil, append_assoc}
use zombiies_api.Common.{
  ℕ, zero, suc, ◌≤◌, ◌≡◌, refl, sym, ap, ◌∙◌, subst, inl, inr, ◌⊎◌, true, Option, none, some, List,
  [], ◌∷◌, ◌++◌, Result, ok, err, find_by_id, length, All, is_ok, arith, Result-cases,
}
use zombiies_api.User.Model.{User}
use zombiies_api.Ether.{Transfer, minted}
use zombiies_api.Ether.Wallets.{get_wallet_of_user}
use zombiies_api.Card.Schema.{Card}
use zombiies_api.Card.Draws.{fits}
use zombiies_api.Card.Service.{CardEnv, World}
use zombiies_api.Card.Service.History.{history}
use zombiies_api.Card.Seed.{then_run, mint_card, seed_rounds, seed_token}
use zombiies_api.Card.Seed.Choices.{IsChosen, IsMissing, DrawsEnd, choose-ChoiceOutcome}
use zombiies_api.Card.Seed.Copies.{copies, mint_card-Adds}

-- What a round minted: `number` tokens of one card with one proof.
pub record Round : Type 0 where
  pub card : Card
  pub proof : ℕ
  pub number : ℕ

abbrev pub prints : ℕ → List Round → List Transfer
prints address [] = []
prints address (r ∷ rs) =
    copies r.number (minted address r.card.token_uri r.proof) ++ prints address rs

module _ {S U C : Type 0} (env : CardEnv S U C) where
  open env use {card_model, user_model, client}

  -- Rounds of at most `count` copies of a chosen card, with nothing else on the chain. Of a call that
  -- returns each has all its copies, and there are `n` of them, unless there is none since the uri
  -- names no card.
  abbrev pub Prints :
      ℕ → Option ℕ → ℕ → ℕ → S → List Transfer → Result (Unit {0}) × World S U C → Type 0
  Prints address token_uri count n s before out =
      (rs : List Round) × (length rs ≤ n)
      × All (λ r. (r.number ≤ count) × IsChosen env token_uri s r.card) rs
      × (is_ok out.0 ≡ true
          → All (λ r. r.number ≡ count) rs
            × ((length rs ≡ n) ⊎ ((rs ≡ []) × IsMissing env token_uri s)))
      × (history env out.1 ≡ before ++ prints address rs)

  chosen_or_IsMissing :
      (token_uri : Option ℕ) (s : S) (c : Card)
      → IsChosen env token_uri s c
      → ¬ (IsMissing env token_uri s)
  chosen_or_IsMissing none s c h (uri, e, n) = cc
  chosen_or_IsMissing (some v) s c h (uri, e, n) =
      absurd (let same : v ≡ uri = cc in let gone = rw (sym same) at n in cc)

  -- A round with all its copies before other rounds.
  add_round :
      (address : ℕ) (token_uri : Option ℕ) (count n : ℕ) (s : S) (before next : List Transfer)
      (r : Round) (out : Result (Unit {0}) × World S U C)
      → r.number ≤ count
      → r.number ≡ count
      → IsChosen env token_uri s r.card
      → next ≡ before ++ copies r.number (minted address r.card.token_uri r.proof)
      → Prints address token_uri count n s next out
      → Prints address token_uri count (suc n) s before out
  add_round address token_uri count n s before next r out le all fit printed
        (rs, len, fits, full, later) =
      (
        r ∷ rs,
        omega arith,
        ((le, fit), fits),
        (λ e. elim (full e).1 [
          | inl l ↦ ((all, (full e).0), inl (ap suc l))
          | inr (none_yet, missing) ↦ absurd (chosen_or_IsMissing token_uri s r.card fit missing)
        ]),
        later
            ∙ ap (λ ts. ts ++ prints address rs) printed
            ∙ append_assoc before (copies r.number (minted address r.card.token_uri r.proof))
                (prints address rs),
      )

  seed_rounds-Prints :
      (date : ℕ → ℕ) (fuel : ℕ) (user : User) (token_uri : Option ℕ) (count n : ℕ) (w : World S U C)
      → DrawsEnd env date fuel token_uri w.cards
      → (out : Result (Unit {0}) × World S U C) × (seed_rounds env date fuel user token_uri count n
            w
          ≡ some out)
        × Prints
            (get_wallet_of_user client user).address
            token_uri
            count
            n
            w.cards
            (history env w)
            out
  unfolding seed_rounds
  seed_rounds-Prints date fuel user token_uri count zero w ends = (
    (ok tt, w),
    refl,
    ([], omega arith, tt, (λ e. (tt, inl refl)), sym (append-nil (history env w))),
  )
  seed_rounds-Prints date fuel user token_uri count (suc n) w ends =
      let (r, v, e, outcome, kept, same) = choose-ChoiceOutcome env date fuel token_uri w ends in
      let nothing = same ∙ sym (append-nil (history env w)) in
      elim outcome [
        | inl (x, b) ↦
            rw (e, then_run)
              (rw b ((err x, v), refl, ([], omega arith, tt, (λ e. absurd cc), nothing)))
        | inr (inl (b, missing)) ↦
            rw (e, then_run)
              (rw b (
                (ok tt, v),
                refl,
                ([], omega arith, tt, (λ e. (tt, inr (refl, missing))), nothing),
              ))
        | inr (inr (c, b, fit)) ↦
            let (proof, (k, le, all, h, s)) = mint_card-Adds env user c count v in
            let u = (mint_card env user (some c) count v).1 in
            let address = (get_wallet_of_user client user).address in
            let t = minted address c.token_uri proof in
            let round : Round = record { card = c; proof = proof; number = k } in
            let printed : history env u ≡ history env w ++ copies k t =
              h ∙ ap (λ ts. ts ++ copies k t) same in
            elim (Result-cases (mint_card env user (some c) count v).0) [
              | inr (x, m) ↦
                  rw (e, then_run)
                    (rw b (
                      rw m (
                        (err x, u),
                        refl,
                        (
                          round ∷ [],
                          omega arith,
                          ((le, fit), tt),
                          (λ e. absurd cc),
                          printed ∙ ap (λ ts. history env w ++ ts) (sym (append-nil (copies k t))),
                        ),
                      )))
              | inl (i, m) ↦
                  let same_cards = s ∙ kept in
                  let (out, f, rest) =
                    seed_rounds-Prints date fuel user token_uri count n u
                      (subst (DrawsEnd env date fuel token_uri) (sym same_cards) ends) in
                  rw (e, then_run)
                    (rw b (
                      rw m (
                        out,
                        f,
                        add_round address token_uri count n w.cards (history env w) (history env u)
                            round out le ((rw m at all) refl) fit printed
                            (subst (λ cs. Prints address token_uri count n cs (history env u) out)
                              same_cards rest),
                      )))
            ]
      ]

  -- `seedToken` on a user that exists, where the fuel is enough for every draw: the command ends.
  -- What it has added to the chain is then, for each of at most `unique_count` cards, at most
  -- `count` tokens of that card minted to the wallet of the user, all with one proof. Each card is
  -- the one that the uri names or, where no uri is given, a card of level 8 or less that some
  -- number draws. When the command ends without an exception there are `unique_count` such cards
  -- with `count` tokens each, or none at all since the uri that is given names no card.
  pub seed_token-Prints :
      (date : ℕ → ℕ) (fuel user_id : ℕ) (token_uri : Option ℕ) (count unique_count : ℕ)
      (w : World S U C) (user : User)
      → find_by_id user_model user_id w.users ≡ some user
      → DrawsEnd env date fuel token_uri w.cards
      → (out : Result (Unit {0}) × World S U C) × (seed_token env date fuel user_id token_uri count
            unique_count w
          ≡ some out)
        × Prints
            (get_wallet_of_user client user).address
            token_uri
            count
            unique_count
            w.cards
            (history env w)
            out
  unfolding seed_token
  seed_token-Prints date fuel user_id token_uri count unique_count w user f ends =
      rw (f, seed_token) (seed_rounds-Prints date fuel user token_uri count unique_count w ends)
