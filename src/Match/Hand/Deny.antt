-- ===== src/Match/Hand/Deny.antt =====
-- `denyCard`: what giving up a card pays, and what it does to the hand.
use zombiies_api.Common.{
  ℕ, ◌+◌, ◌≡◌, ◌↔◌, refl, inl, inr, true, false, some, List, [], ◌∷◌, if◌then◌else◌, find, filter,
  All, filter-All, ok, is_ok, arith, Bool-cases, Option-cases,
}
use zombiies_api.Card.Model.{CardTokenModel, is_monster}
use zombiies_api.Deck.Model.{DeckCardModel}
use zombiies_api.Match.Model.{PlayerStatusModel}
use zombiies_api.Match.Hand.{has_token, token_of, deny_status}

abbrev pub deny_result : PlayerStatusModel → ℕ → CardTokenModel → PlayerStatusModel
deny_result s token_id card = record s {
  on_hand = filter (has_token token_id) s.on_hand;
  crystal = s.crystal + (if is_monster card.type then 2 else 1);
}

pub record CanDeny (s : PlayerStatusModel) (token_id : ℕ) (card : CardTokenModel) : Type 0 where
  pub in_turn : s.in_turn ≡ true
  pub not_confirmed : s.confirm_turn ≡ false
  pub in_hand : token_of (find (has_token token_id) s.on_hand) ≡ some card

-- `denyCard` succeeds exactly when the player is in turn and has not confirmed, and the card is in
-- the hand.
pub deny_status_iff :
    (s : PlayerStatusModel) (token_id : ℕ)
    → (is_ok (deny_status s token_id) ≡ true) ↔ ((card : CardTokenModel) × CanDeny s token_id card)
unfolding deny_status
deny_status_iff s token_id = (λ h. deny_needs h, λ c. ground (arith, c.1))
  where
    deny_needs :
        is_ok (deny_status s token_id) ≡ true → (card : CardTokenModel) × CanDeny s token_id card
    deny_needs h = elim (Option-cases (token_of (find (has_token token_id) s.on_hand))) [
      | inl n ↦ absurd (ground (arith, n, h))
      | inr (card, f) ↦ (
        card,
        record { in_turn = ground (arith, h); not_confirmed = ground (arith, h); in_hand = f },
      )
    ]

pub deny_status-result :
    (s : PlayerStatusModel) (token_id : ℕ) (card : CardTokenModel)
    → CanDeny s token_id card
    → deny_status s token_id ≡ ok (deny_result s token_id card)
unfolding deny_status
deny_status-result s token_id card c = ground arith

find-filter :
    (t : ℕ) (cs : List DeckCardModel)
    → find (has_token t) (filter (has_token t) cs) ≡ find (has_token t) cs
find-filter t [] = refl
find-filter t (c ∷ cs) = elim (Bool-cases (has_token t c)) [
  | inl h ↦ rw (h, h)
  | inr h ↦ rw h (find-filter t cs)
]

-- Each card of the hand after `denyCard` has the denied token, so every other card is lost, and the
-- denied card stays: it pays its crystals again and again, 2 for a monster and 1 for an equipment.
pub deny_status_keeps :
    (s : PlayerStatusModel) (token_id : ℕ) (card : CardTokenModel)
    → CanDeny s token_id card
    → (s' : PlayerStatusModel) × (deny_status s token_id ≡ ok s')
      × All (λ c. has_token token_id c ≡ true) s'.on_hand
      × CanDeny s' token_id card
      × (s'.crystal ≡ s.crystal + (if is_monster card.type then 2 else 1))
      × (s'.on_board ≡ s.on_board)
deny_status_keeps s token_id card c = (
  deny_result s token_id card,
  deny_status-result s token_id card c,
  filter-All (has_token token_id) s.on_hand,
  record {
    in_turn = c.in_turn;
    not_confirmed = c.not_confirmed;
    in_hand = rw (find-filter token_id s.on_hand) c.in_hand;
  },
  refl,
  refl,
)
