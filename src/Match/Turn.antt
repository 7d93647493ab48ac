-- ===== src/Match/Turn.antt =====
-- src/module/match/match.service.ts: the player statuses of a match through a turn, that is what
-- `confirmTurn`, `endTurn`, `putToBoard`, `denyCard` and `getWinnerStatus` compute from the match
-- that they have read.
pub mod Roles
pub mod Confirm
pub mod Progress
use zombiies_api.Common.{
  ℕ, ◌+◌, Bool, true, false, not, ◌&&◌, ◌||◌, Option, none, some, List, [], ◌∷◌, map, ◌==◌,
  if◌then◌else◌, length, find, filter, any, Result, ok, err, bad_request, forbidden, throw_if,
  or_throw, ◌>>=◌, ◌>>◌, Random,
}
use zombiies_api.Card.Model.{is_monster}
use zombiies_api.Deck.Model.{DeckCardModel}
use zombiies_api.Match.Model.{PlayerStatusModel, BoardCardModel, AttackEventModel, Match}
use zombiies_api.Match.Combat.{Round, cast_cards}
use zombiies_api.Match.Hand.{Lodash, validate_in_turn_action, put_status, deny_status}

abbrev pub is_player : ℕ → PlayerStatusModel → Bool
is_player user s = s.player_id == user

abbrev pub status_of : ℕ → List PlayerStatusModel → Option PlayerStatusModel
status_of user = find (is_player user)

-- `playerStatuses.find((s) => s.playerId !== userId)`.
abbrev pub opponent_of : ℕ → List PlayerStatusModel → Option PlayerStatusModel
opponent_of user = find (λ s. not (is_player user s))

-- `playerStatuses.map((s) => s.playerId === userId ? f(s) : s)`.
abbrev pub update_status :
    ℕ → (PlayerStatusModel → PlayerStatusModel) → List PlayerStatusModel → List PlayerStatusModel
update_status user f = map (λ s. if is_player user s then f s else s)

unfoldable pub find_player_status_or_fail : ℕ → List PlayerStatusModel → Result PlayerStatusModel
find_player_status_or_fail user statuses =
    or_throw (status_of user statuses) (forbidden "You are not in this match")

-- The new statuses of `confirmTurn`, with the attacks and the number of draws.
abbrev pub Confirmed : Type 0
Confirmed = List PlayerStatusModel × Round

unfoldable pub confirm_statuses : Random → ℕ → ℕ → List PlayerStatusModel → Result Confirmed
unfolding find_player_status_or_fail validate_in_turn_action
confirm_statuses r draws user statuses = do
  current ← find_player_status_or_fail user statuses
  validate_in_turn_action current.in_turn current.confirm_turn
  target ← or_throw (opponent_of current.player_id statuses) (bad_request "Not found target")
  let round =
      cast_cards r current.on_board
        (record { draws = draws; attacks = []; target_on_board = target.on_board })
  ok (
    update_status current.player_id (λ s. record s { confirm_turn = true })
        (update_status target.player_id (λ _. record target { on_board = round.target_on_board })
          statuses),
    round,
  )

-- The new statuses of `putToBoard` and of `denyCard`: the three fields are set in the user's status.
unfoldable pub put_statuses :
    Lodash → ℕ → ℕ → ℕ → List PlayerStatusModel → Result (List PlayerStatusModel)
unfolding find_player_status_or_fail
put_statuses lodash user token_id position statuses = do
  status ← find_player_status_or_fail user statuses
  new ← put_status lodash status token_id position
  ok (
      update_status user
        (λ s. record s { on_hand = new.on_hand; on_board = new.on_board; crystal = new.crystal })
        statuses)

unfoldable pub deny_statuses : ℕ → ℕ → List PlayerStatusModel → Result (List PlayerStatusModel)
unfolding find_player_status_or_fail
deny_statuses user token_id statuses = do
  status ← find_player_status_or_fail user statuses
  new ← deny_status status token_id
  ok (update_status user (λ s. record s { on_hand = new.on_hand; crystal = new.crystal }) statuses)

-- The checks of `endTurn`.
unfoldable pub validate_end_turn : ℕ → List PlayerStatusModel → Result (Unit {0})
unfolding find_player_status_or_fail
validate_end_turn user statuses = do
  status ← find_player_status_or_fail user statuses
  throw_if (not status.in_turn || not status.confirm_turn) (forbidden "Not your turn")

-- The new statuses of `endTurn`.
unfoldable pub end_turn_statuses : ℕ → List PlayerStatusModel → List PlayerStatusModel
end_turn_statuses user = map (λ s.
    if is_player user s
    then record s { in_turn = false; confirm_turn = false }
    else record s { in_turn = true; confirm_turn = false; crystal = s.crystal + 3 })

abbrev pub is_monster_card : DeckCardModel → Bool
is_monster_card c = elim c.token [ none ↦ false | some t ↦ is_monster t.type ]

-- A player loses with no monster on the hand and nothing on the board.
abbrev pub has_lost : PlayerStatusModel → Bool
has_lost s = (length (filter is_monster_card s.on_hand) == 0) && (length s.on_board == 0)

unfoldable pub get_winner_status : List PlayerStatusModel → Option PlayerStatusModel
get_winner_status statuses = elim (find has_lost statuses) [
  | none ↦ none
  | some loser ↦ opponent_of loser.player_id statuses
]

-- A status of `createMatch`: the first player has the turn and 3 crystals.
unfoldable pub initial_status : ℕ → List DeckCardModel → Bool → PlayerStatusModel
initial_status user cards first = record {
  player_id = user;
  on_board = [];
  on_hand = cards;
  crystal = if first then 3 else 0;
  in_turn = first;
  confirm_turn = false;
}
