-- ===== src/Match/Turn/Progress.antt =====
-- How a match goes on from a turn: the player who waits is given the turn, or the match ends.
use zombiies_api.Common.{
  ℕ, ◌+◌, ◌≡◌, ◌≢◌, refl, inl, inr, true, false, some, List, [], ◌∷◌, ◌==◌, ok, arith, Bool-cases,
  Option-cases, ◌⊎◌, Random,
}
use zombiies_api.Match.Model.{PlayerStatusModel}
use zombiies_api.Match.Combat.{Round, cast_cards}
use zombiies_api.Match.Hand.{Lodash}
use zombiies_api.Match.Turn.{
  status_of, confirm_statuses, validate_end_turn, end_turn_statuses, get_winner_status,
}
use zombiies_api.Match.Turn.Roles.{IsDuel, confirms, ends, Moves, here, next}

abbrev attack_round : Random → ℕ → PlayerStatusModel → PlayerStatusModel → Round
attack_round r draws s o =
    cast_cards r s.on_board (record { draws = draws; attacks = []; target_on_board = o.on_board })

confirm_statuses-first :
    (r : Random) (draws : ℕ) (a b : PlayerStatusModel)
    → a.player_id ≢ b.player_id
    → a.in_turn ≡ true
    → a.confirm_turn ≡ false
    → confirm_statuses r draws a.player_id (a ∷ b ∷ [])
      ≡ ok (
        record a { confirm_turn = true }
            ∷ record b { on_board = (attack_round r draws a b).target_on_board }
            ∷ [],
        attack_round r draws a b,
      )
unfolding confirm_statuses
confirm_statuses-first r draws a b ne t c = ground arith

confirm_statuses-second :
    (r : Random) (draws : ℕ) (a b : PlayerStatusModel)
    → a.player_id ≢ b.player_id
    → b.in_turn ≡ true
    → b.confirm_turn ≡ false
    → confirm_statuses r draws b.player_id (a ∷ b ∷ [])
      ≡ ok (
        record a { on_board = (attack_round r draws b a).target_on_board }
            ∷ record b { confirm_turn = true }
            ∷ [],
        attack_round r draws b a,
      )
unfolding confirm_statuses
confirm_statuses-second r draws a b ne t c = ground arith

end_turn-first :
    (a b : PlayerStatusModel)
    → a.player_id ≢ b.player_id
    → a.in_turn ≡ true
    → a.confirm_turn ≡ true
    → validate_end_turn a.player_id (a ∷ b ∷ []) ≡ ok tt
unfolding validate_end_turn
end_turn-first a b ne t c = ground arith

end_turn-second :
    (a b : PlayerStatusModel)
    → a.player_id ≢ b.player_id
    → b.in_turn ≡ true
    → b.confirm_turn ≡ true
    → validate_end_turn b.player_id (a ∷ b ∷ []) ≡ ok tt
unfolding validate_end_turn
end_turn-second a b ne t c = ground arith

-- The status of a user who has been given the turn.
abbrev pub IsGiven : ℕ → PlayerStatusModel → List PlayerStatusModel → Type 0
IsGiven user s after =
    (s' : PlayerStatusModel) × (status_of user after ≡ some s')
    × (s'.in_turn ≡ true)
    × (s'.confirm_turn ≡ false)
    × (s'.crystal ≡ s.crystal + 3)
    × (s'.on_hand ≡ s.on_hand)

-- A player may end the turn, and somebody has won: `endTurn` of that player ends the match.
abbrev pub IsOver : List PlayerStatusModel → Type 0
IsOver after =
    (player : ℕ) × (winner : PlayerStatusModel) × (validate_end_turn player after ≡ ok tt)
    × (get_winner_status after ≡ some winner)

module _ (lodash : Lodash) (r : Random) where
  -- The turn of a user who had the status `s`, or a match that is over, after some moves.
  abbrev pub Passes : List PlayerStatusModel → ℕ → PlayerStatusModel → Type 0
  Passes start user s =
      (after : List PlayerStatusModel) × Moves lodash r start after
      × (IsGiven user s after ⊎ IsOver after)

  ends-first :
      {start : List PlayerStatusModel} (a b : PlayerStatusModel)
      → Moves lodash r start (a ∷ b ∷ [])
      → a.player_id ≢ b.player_id
      → a.in_turn ≡ true
      → a.confirm_turn ≡ true
      → Passes start b.player_id b
  unfolding end_turn_statuses
  ends-first a b ms ne t c = elim (Option-cases (get_winner_status (a ∷ b ∷ []))) [
    | inr (winner, w) ↦ (a ∷ b ∷ [], ms, inr (a.player_id, winner, end_turn-first a b ne t c, w))
    | inl n ↦ (
      end_turn_statuses a.player_id (a ∷ b ∷ []),
      next ms (ends a.player_id (end_turn-first a b ne t c) n refl),
      inl (
        record b { in_turn = true; confirm_turn = false; crystal = b.crystal + 3 },
        ground (arith, ne),
        refl,
        refl,
        refl,
        refl,
      ),
    )
  ]

  ends-second :
      {start : List PlayerStatusModel} (a b : PlayerStatusModel)
      → Moves lodash r start (a ∷ b ∷ [])
      → a.player_id ≢ b.player_id
      → b.in_turn ≡ true
      → b.confirm_turn ≡ true
      → Passes start a.player_id a
  unfolding end_turn_statuses
  ends-second a b ms ne t c = elim (Option-cases (get_winner_status (a ∷ b ∷ []))) [
    | inr (winner, w) ↦ (a ∷ b ∷ [], ms, inr (b.player_id, winner, end_turn-second a b ne t c, w))
    | inl n ↦ (
      end_turn_statuses b.player_id (a ∷ b ∷ []),
      next ms (ends b.player_id (end_turn-second a b ne t c) n refl),
      inl (
        record a { in_turn = true; confirm_turn = false; crystal = a.crystal + 3 },
        ground (arith, ne),
        refl,
        refl,
        refl,
        refl,
      ),
    )
  ]

  Passes-first :
      (a b : PlayerStatusModel)
      → a.player_id ≢ b.player_id
      → a.in_turn ≡ true
      → Passes (a ∷ b ∷ []) b.player_id b
  Passes-first a b ne t = elim (Bool-cases a.confirm_turn) [
    | inl c ↦ ends-first a b here ne t c
    | inr c ↦
        ends-first (record a { confirm_turn = true })
          (record b { on_board = (attack_round r 0 a b).target_on_board })
          (next here
            (confirms 0 a.player_id (attack_round r 0 a b) (confirm_statuses-first r 0 a b ne t c)))
          ne t refl
  ]

  Passes-second :
      (a b : PlayerStatusModel)
      → a.player_id ≢ b.player_id
      → b.in_turn ≡ true
      → Passes (a ∷ b ∷ []) a.player_id a
  Passes-second a b ne t = elim (Bool-cases b.confirm_turn) [
    | inl c ↦ ends-second a b here ne t c
    | inr c ↦
        ends-second (record a { on_board = (attack_round r 0 b a).target_on_board })
          (record b { confirm_turn = true })
          (next here (
            confirms 0 b.player_id (attack_round r 0 b a) (confirm_statuses-second r 0 a b ne t c)))
          ne t refl
  ]

  -- In a duel there are always some moves after which the player who was not in turn has been given
  -- the turn, with 3 crystals more, the same hand and not confirmed; or after which one of the
  -- players may end the turn and somebody has won, so that `endTurn` ends the match instead.
  pub turn_can_pass :
      (user : ℕ) (statuses : List PlayerStatusModel) (s : PlayerStatusModel)
      → IsDuel statuses
      → status_of user statuses ≡ some s
      → s.in_turn ≡ false
      → (after : List PlayerStatusModel) × Moves lodash r statuses after
        × (IsGiven user s after ⊎ IsOver after)
  turn_can_pass user [] s d f n = absurd d
  turn_can_pass user (a ∷ []) s d f n = absurd d
  turn_can_pass user (a ∷ b ∷ c ∷ e) s d f n = absurd d
  turn_can_pass user (a ∷ b ∷ []) s d f n = elim (Bool-cases (a.player_id == user)) [
    | inl e ↦
        let same : a ≡ s = ground (arith, f, e) in
        let name : a.player_id ≡ user = ground (arith, e) in
        rw (← name, ← same) (Passes-second a b d.0 (ground (arith, d.1, same, n)))
    | inr e ↦
        let same : b ≡ s = ground (arith, f, e) in
        let name : b.player_id ≡ user = ground (arith, f, e) in
        rw (← name, ← same) (Passes-first a b d.0 (ground (arith, d.1, same, n)))
  ]
