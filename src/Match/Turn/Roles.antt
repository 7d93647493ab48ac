-- ===== src/Match/Turn/Roles.antt =====
-- Whose turn it is: the two statuses of a match, one of them in turn, through every move.
use zombiies_api.Common.{
  ℕ, ◌+◌, ◌≡◌, ◌≢◌, inl, inr, subst, true, false, not, none, some, List, [], ◌∷◌, find, ok, is_ok,
  Result-cases, arith, Option-cases, Random,
}
use zombiies_api.Match.Model.{PlayerStatusModel}
use zombiies_api.Deck.Model.{DeckCardModel}
use zombiies_api.Match.Combat.{Round}
use zombiies_api.Match.Hand.{Lodash, put_status, deny_status}
use zombiies_api.Match.Turn.{
  status_of, opponent_of, confirm_statuses, put_statuses, deny_statuses, validate_end_turn,
  end_turn_statuses, initial_status, get_winner_status,
}

-- A status that is not in turn has not confirmed.
abbrev IsIdle : PlayerStatusModel → Type 0
IsIdle s = s.in_turn ≡ false → s.confirm_turn ≡ false

-- Two different players, exactly one of them in turn.
abbrev pub IsDuel : List PlayerStatusModel → Type 0
IsDuel [] = ⊥
IsDuel (a ∷ []) = ⊥
IsDuel (a ∷ b ∷ []) =
    (a.player_id ≢ b.player_id) × (a.in_turn ≡ not b.in_turn) × IsIdle a × IsIdle b
IsDuel (a ∷ b ∷ c ∷ r) = ⊥

-- A new match is a duel, and the first player has the turn.
pub initial_status-IsDuel :
    (p1 p2 : ℕ) (cards1 cards2 : List DeckCardModel)
    → p1 ≢ p2
    → IsDuel (initial_status p1 cards1 true ∷ initial_status p2 cards2 false ∷ [])
unfolding initial_status
initial_status-IsDuel p1 p2 cards1 cards2 ne = ground arith

pub put_statuses-IsDuel :
    (lodash : Lodash) (user token_id position : ℕ) (statuses after : List PlayerStatusModel)
    → put_statuses lodash user token_id position statuses ≡ ok after
    → IsDuel statuses
    → IsDuel after
unfolding put_statuses
put_statuses-IsDuel lodash user token_id position [] after h d = absurd d
put_statuses-IsDuel lodash user token_id position (a ∷ []) after h d = absurd d
put_statuses-IsDuel lodash user token_id position (a ∷ b ∷ c ∷ r) after h d = absurd d
put_statuses-IsDuel lodash user token_id position (a ∷ b ∷ []) after h d =
    elim (Option-cases (status_of user (a ∷ b ∷ []))) [
      | inl n ↦ absurd (ground (arith, n))
      | inr (s, f) ↦ elim (Result-cases (put_status lodash s token_id position)) [
        | inl (new, e) ↦ ground (arith, f, e)
        | inr (x, e) ↦ absurd (ground (arith, f, e))
      ]
    ]

pub deny_statuses-IsDuel :
    (user token_id : ℕ) (statuses after : List PlayerStatusModel)
    → deny_statuses user token_id statuses ≡ ok after
    → IsDuel statuses
    → IsDuel after
unfolding deny_statuses
deny_statuses-IsDuel user token_id [] after h d = absurd d
deny_statuses-IsDuel user token_id (a ∷ []) after h d = absurd d
deny_statuses-IsDuel user token_id (a ∷ b ∷ c ∷ r) after h d = absurd d
deny_statuses-IsDuel user token_id (a ∷ b ∷ []) after h d =
    elim (Option-cases (status_of user (a ∷ b ∷ []))) [
      | inl n ↦ absurd (ground (arith, n))
      | inr (s, f) ↦ elim (Result-cases (deny_status s token_id)) [
        | inl (new, e) ↦ ground (arith, f, e)
        | inr (x, e) ↦ absurd (ground (arith, f, e))
      ]
    ]

pub confirm_statuses-IsDuel :
    (r : Random) (draws user : ℕ) (statuses : List PlayerStatusModel)
    (after : List PlayerStatusModel × Round)
    → confirm_statuses r draws user statuses ≡ ok after
    → IsDuel statuses
    → IsDuel after.0
unfolding confirm_statuses
confirm_statuses-IsDuel r draws user [] after h d = absurd d
confirm_statuses-IsDuel r draws user (a ∷ []) after h d = absurd d
confirm_statuses-IsDuel r draws user (a ∷ b ∷ c ∷ e) after h d = absurd d
confirm_statuses-IsDuel r draws user (a ∷ b ∷ []) after h d = ground arith

pub end_turn_statuses-IsDuel :
    (user : ℕ) (statuses : List PlayerStatusModel)
    → validate_end_turn user statuses ≡ ok tt
    → IsDuel statuses
    → IsDuel (end_turn_statuses user statuses)
unfolding validate_end_turn end_turn_statuses
end_turn_statuses-IsDuel user [] h d = absurd d
end_turn_statuses-IsDuel user (a ∷ []) h d = absurd d
end_turn_statuses-IsDuel user (a ∷ b ∷ c ∷ e) h d = absurd d
end_turn_statuses-IsDuel user (a ∷ b ∷ []) h d = ground arith

-- The player who ends the turn loses it, and the other one gets it with 3 crystals more; neither is
-- left confirmed, and nothing else of the two changes.
end_turn_statuses_pass :
    (user : ℕ) (statuses : List PlayerStatusModel) (s o : PlayerStatusModel)
    → IsDuel statuses
    → status_of user statuses ≡ some s
    → opponent_of user statuses ≡ some o
    → let after = end_turn_statuses user statuses in
      (status_of user after ≡ some (record s { in_turn = false; confirm_turn = false }))
      × (opponent_of user after
          ≡ some (record o { in_turn = true; confirm_turn = false; crystal = o.crystal + 3 }))
unfolding end_turn_statuses
end_turn_statuses_pass user [] s o d f g = absurd d
end_turn_statuses_pass user (a ∷ []) s o d f g = absurd d
end_turn_statuses_pass user (a ∷ b ∷ c ∷ e) s o d f g = absurd d
end_turn_statuses_pass user (a ∷ b ∷ []) s o d f g = ground arith

-- While the player in turn has confirmed, nobody can confirm, put a card or deny one.
confirmed_locks :
    (lodash : Lodash) (r : Random) (draws user token_id position : ℕ)
    (statuses : List PlayerStatusModel)
    → IsDuel statuses
    → ((s : PlayerStatusModel) → find (λ x. x.in_turn) statuses ≡ some s → s.confirm_turn ≡ true)
    → (is_ok (confirm_statuses r draws user statuses) ≡ false)
      × (is_ok (put_statuses lodash user token_id position statuses) ≡ false)
      × (is_ok (deny_statuses user token_id statuses) ≡ false)
unfolding confirm_statuses put_statuses deny_statuses put_status deny_status
confirmed_locks lodash r draws user token_id position [] d c = absurd d
confirmed_locks lodash r draws user token_id position (a ∷ []) d c = absurd d
confirmed_locks lodash r draws user token_id position (a ∷ b ∷ e ∷ f) d c = absurd d
confirmed_locks lodash r draws user token_id position (a ∷ b ∷ []) d c =
    (ground (arith, c a, c b), ground (arith, c a, c b), ground (arith, c a, c b))

module _ (lodash : Lodash) (r : Random) where
  -- A move of one of the players after which the match goes on: `endTurn` gives the turn away when
  -- nobody has won.
  pub data Move (before : List PlayerStatusModel) : List PlayerStatusModel → Type 0 where
    puts :
        (user token_id position : ℕ) {after : List PlayerStatusModel}
        → put_statuses lodash user token_id position before ≡ ok after
        → Move before after
    denies :
        (user token_id : ℕ) {after : List PlayerStatusModel}
        → deny_statuses user token_id before ≡ ok after
        → Move before after
    confirms :
        (draws user : ℕ) (round : Round) {after : List PlayerStatusModel}
        → confirm_statuses r draws user before ≡ ok (after, round)
        → Move before after
    ends :
        (user : ℕ) {after : List PlayerStatusModel}
        → validate_end_turn user before ≡ ok tt
        → get_winner_status before ≡ none
        → end_turn_statuses user before ≡ after
        → Move before after

  pub data Moves (start : List PlayerStatusModel) : List PlayerStatusModel → Type 0 where
    here : Moves start start
    next :
        {mid after : List PlayerStatusModel} → Moves start mid → Move mid after → Moves start after

  pub Move-IsDuel :
      {before after : List PlayerStatusModel} → Move before after → IsDuel before → IsDuel after
  Move-IsDuel {before} {after} (puts u t p e) d = put_statuses-IsDuel lodash u t p before after e d
  Move-IsDuel {before} {after} (denies u t e) d = deny_statuses-IsDuel u t before after e d
  Move-IsDuel {before} {after} (confirms k u round e) d =
      confirm_statuses-IsDuel r k u before (after, round) e d
  Move-IsDuel {before} {after} (ends u v n e) d =
      subst IsDuel e (end_turn_statuses-IsDuel u before v d)

  -- Through any sequence of moves a match stays a duel: two different players, exactly one of them
  -- in turn, and the other one not confirmed.
  Moves-IsDuel :
      {start after : List PlayerStatusModel} → Moves start after → IsDuel start → IsDuel after
  Moves-IsDuel here d = d
  Moves-IsDuel (next ms m) d = Move-IsDuel m (Moves-IsDuel ms d)
