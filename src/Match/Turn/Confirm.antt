-- ===== src/Match/Turn/Confirm.antt =====
-- What `confirmTurn` does to the two players, and who wins.
use zombiies_api.Common.{
  ℕ, ◌≤◌, ◌≡◌, ◌↔◌, refl, inl, inr, true, false, none, some, List, [], ◌∷◌, length, All, ok, arith,
  Bool-cases, Random,
}
use zombiies_api.Match.Model.{PlayerStatusModel}
use zombiies_api.Match.Combat.{Round, cast_cards}
use zombiies_api.Match.Combat.Boards.{IsAlive, IsDistinct}
use zombiies_api.Match.Combat.Worn.{IsWorn, skill_count, cast_cards-IsWorn}
use zombiies_api.Match.Turn.{status_of, opponent_of, confirm_statuses, has_lost, get_winner_status}
use zombiies_api.Match.Turn.Roles.{IsDuel}

-- A player's turn as `confirmTurn` ends it.
pub record IsConfirmed (s o : PlayerStatusModel) (user : ℕ) (after : List PlayerStatusModel)
    (round : Round) : Type 0 where
  pub was_in_turn : (s.in_turn ≡ true) × (s.confirm_turn ≡ false)
  pub attacker : status_of user after ≡ some (record s { confirm_turn = true })
  pub target : opponent_of user after ≡ some (record o { on_board = round.target_on_board })
  pub worn : IsWorn o.on_board round.target_on_board
  pub few : length round.attacks ≤ skill_count s.on_board

confirm_statuses-parts :
    (r : Random) (draws user : ℕ) (statuses after : List PlayerStatusModel) (round : Round)
    (s o : PlayerStatusModel)
    → IsDuel statuses
    → status_of user statuses ≡ some s
    → opponent_of user statuses ≡ some o
    → confirm_statuses r draws user statuses ≡ ok (after, round)
    → (round
        ≡ cast_cards r s.on_board
            (record { draws = draws; attacks = []; target_on_board = o.on_board }))
      × ((s.in_turn ≡ true) × (s.confirm_turn ≡ false))
      × (status_of user after ≡ some (record s { confirm_turn = true }))
      × (opponent_of user after ≡ some (record o { on_board = round.target_on_board }))
unfolding confirm_statuses
confirm_statuses-parts r draws user [] after round s o d f g h = absurd d
confirm_statuses-parts r draws user (a ∷ []) after round s o d f g h = absurd d
confirm_statuses-parts r draws user (a ∷ b ∷ c ∷ e) after round s o d f g h = absurd d
confirm_statuses-parts r draws user (a ∷ b ∷ []) after round s o d f g h = ground arith

-- When the cards on the opponent's board are alive and have distinct tokens, and `confirmTurn`
-- succeeds in a duel: the user was in turn and had not confirmed, is confirmed now and otherwise
-- unchanged, and of the opponent only the board has changed: its cards are distinct and alive, no
-- more than before, and none has gained health points. There is at most one attack for each skill
-- on the user's board.
pub confirm_statuses-IsConfirmed :
    (r : Random) (draws user : ℕ) (statuses after : List PlayerStatusModel) (round : Round)
    (s o : PlayerStatusModel)
    → IsDuel statuses
    → status_of user statuses ≡ some s
    → opponent_of user statuses ≡ some o
    → IsAlive o.on_board
    → IsDistinct o.on_board
    → confirm_statuses r draws user statuses ≡ ok (after, round)
    → IsConfirmed s o user after round
confirm_statuses-IsConfirmed r draws user statuses after round s o d f g alive distinct h =
    let (e, turn, own, other) =
      confirm_statuses-parts r draws user statuses after round s o d f g h in
    let start : Round = record { draws = draws; attacks = []; target_on_board = o.on_board } in
    let (worn, few) = cast_cards-IsWorn r s.on_board start alive distinct in
    record {
      was_in_turn = turn;
      attacker = own;
      target = other;
      worn = rw e worn;
      few = rw e (omega (arith, few));
    }

-- A duel has a winner exactly when one of the players has lost, and the winner's opponent is then
-- one that has.
get_winner_status_lem :
    (statuses : List PlayerStatusModel)
    → IsDuel statuses
    → ((get_winner_status statuses ≡ none) ↔ All (λ s. has_lost s ≡ false) statuses)
      × ((w : PlayerStatusModel)
          → get_winner_status statuses ≡ some w
          → (l : PlayerStatusModel) × (opponent_of w.player_id statuses ≡ some l)
            × (has_lost l ≡ true))
unfolding get_winner_status
get_winner_status_lem [] d = absurd d
get_winner_status_lem (a ∷ []) d = absurd d
get_winner_status_lem (a ∷ b ∷ c ∷ e) d = absurd d
get_winner_status_lem (a ∷ b ∷ []) d = elim (Bool-cases (has_lost a)) [
  | inl x ↦ rw x (ground (arith, d.0), λ w e. (a, ground (arith, e, d.0, x), x))
  | inr x ↦ elim (Bool-cases (has_lost b)) [
    | inl y ↦ rw (x, y) (ground (arith, d.0), λ w e. (b, ground (arith, e, d.0, x, y), y))
    | inr y ↦
        rw (x, y)
          ((λ e. (refl, (refl, tt)), λ e. ground (arith, x, y)), λ w e. ground (arith, e, x, y))
  ]
]
