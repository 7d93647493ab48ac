-- ===== src/Match/Plays.antt =====
-- The concrete match played by its service: the theorems of Match/Turn and Match/Service applied.
use zombiies_api.Common.{
  ℕ, ◌⊎◌, ◌≡◌, refl, true, none, some, List, [], ◌∷◌, find, ok, err, arith, find_by_id,
  if◌then◌else◌, ◌==◌, Error,
}
use zombiies_api.Match.Model.{
  PlayerStatusModel, Match, prepare_turn_event, put_card, confirm_turn_event,
}
use zombiies_api.Match.Combat.{Round, cast_cards, get_hp_of}
use zombiies_api.Match.Combat.Boards.{IsAlive}
use zombiies_api.Match.Turn.{
  opponent_of, confirm_statuses, put_statuses, validate_end_turn, end_turn_statuses,
  get_winner_status,
}
use zombiies_api.Match.Turn.Roles.{Moves, IsDuel}
use zombiies_api.Match.Turn.Progress.{IsGiven, IsOver, turn_can_pass}
use zombiies_api.Match.Turn.Confirm.{IsConfirmed, confirm_statuses-IsConfirmed}
use zombiies_api.Match.Service.{
  put_to_board, confirm_turn, surrender, is_playing, end_turn, match_timeout, without_job,
}
use zombiies_api.Match.Service.Duels.{
  AllDuels, Call, puts, denies, confirms, surrenders, times_out, creates, after_calls,
}
use zombiies_api.Match.Service.Duels
use zombiies_api.Match.Service.Effects
use zombiies_api.Match.Service.Effects.{put_to_board-Moves, confirm_turn_lem, IsStored}
use zombiies_api.Match.Service.Timeouts.{surrender_then_timeout, end_turn-next, end_turn-wins}
use zombiies_api.Match.Fixture.{enemy, lodash, alice, bob, duel, the_match, env, world}

duel-IsDuel : IsDuel duel
duel-IsDuel = ground arith

abbrev confirmed : List PlayerStatusModel
confirmed = record alice { confirm_turn = true } ∷ bob ∷ []

confirmed-IsDuel : IsDuel confirmed
confirmed-IsDuel = ground arith

only_alice :
    (s : PlayerStatusModel) → find (λ x. x.in_turn) confirmed ≡ some s → s.confirm_turn ≡ true
only_alice s e = ground arith

confirmed_can_end : validate_end_turn 1 confirmed ≡ ok tt
unfolding validate_end_turn
confirmed_can_end = refl

turn_can_pass_example :
    (after : List PlayerStatusModel) × Moves lodash env.random duel after
    × (IsGiven 2 bob after ⊎ IsOver after)
turn_can_pass_example = turn_can_pass lodash env.random 2 duel bob duel-IsDuel refl refl

abbrev attack : Round
attack =
    cast_cards env.random alice.on_board
      (record { draws = 0; attacks = []; target_on_board = enemy })

confirm_works :
    confirm_statuses env.random 0 1 duel
    ≡ ok (
      record alice { confirm_turn = true } ∷ record bob { on_board = attack.target_on_board } ∷ [],
      attack,
    )
unfolding confirm_statuses
confirm_works = refl

enemy-IsAlive : IsAlive enemy
unfolding get_hp_of
enemy-IsAlive = omega arith

confirm_statuses-IsConfirmed_example :
    IsConfirmed alice bob 1
      (record alice { confirm_turn = true } ∷ record bob { on_board = attack.target_on_board } ∷ [])
      attack
confirm_statuses-IsConfirmed_example =
    confirm_statuses-IsConfirmed env.random 0 1 duel _ attack alice bob duel-IsDuel refl refl
      enemy-IsAlive (refl, (refl, tt)) confirm_works

abbrev calls : List Call
calls =
    confirms 1
    ∷ Duels.ends 1
    ∷ puts 2 23 3
    ∷ surrenders 1
    ∷ times_out 1
    ∷ creates 1 2 (omega arith)
    ∷ []

put_to_board-Moves_example :
    Effects.Moves env world 1
      (λ m. put_statuses lodash 1 14 3 m.player_statuses)
      (prepare_turn_event put_card 1 14 (some 3))
      (put_to_board env 1 14 3 world)
put_to_board-Moves_example = put_to_board-Moves env 1 14 3 world (refl, tt)

confirm_turn_lem_example :
    let r = confirm_turn env 1 world in
    ((e : Error) → r.0 ≡ err e → r.1 ≡ world)
    × (r.0 ≡ ok tt
        → (m : Match) × (statuses : List PlayerStatusModel) × (round : Round) × (env.model.find_one
              (is_playing 1)
              world.matches
            ≡ some m)
          × (confirm_statuses env.random world.draws 1 m.player_statuses ≡ ok (statuses, round))
          × (r.1.draws ≡ round.draws)
          × IsStored env world r.1 m statuses (confirm_turn_event 1 round.attacks))
confirm_turn_lem_example = confirm_turn_lem env 1 world (refl, tt)

surrender_then_timeout_example :
    let w₁ = (surrender env 2 world).1 in
    let w₂ = (match_timeout env 1 w₁).1 in
    (o : PlayerStatusModel) × (opponent_of 2 duel ≡ some o)
    × (find_by_id env.model 1 w₁.matches ≡ some (record the_match { winner_id = some o.player_id }))
    × (w₁.jobs ≡ world.jobs)
    × (find_by_id env.model 1 w₂.matches ≡ some (record the_match { winner_id = some 2 }))
surrender_then_timeout_example =
    surrender_then_timeout env 2 the_match bob world (refl, tt) refl duel-IsDuel refl refl

abbrev ending : Match
ending = record the_match { player_statuses = confirmed }

nobody_lost : get_winner_status confirmed ≡ none
unfolding get_winner_status
nobody_lost = refl

end_turn-next_example :
    let (r, w') = end_turn env 1 (record world { matches = ending ∷ [] }) in
    (job : ℕ) × (r ≡ ok tt)
    × (find_by_id env.model 1 w'.matches
        ≡ some (record ending {
          player_statuses = end_turn_statuses 1 confirmed;
          timeout_job_id = some job;
        }))
    × (env.match_queue.get_job job w'.jobs ≡ some 1)
    × (env.match_queue.get_job 1 w'.jobs ≡ (if job == 1 then some 1 else none))
end_turn-next_example =
    end_turn-next env 1 1 ending (record world { matches = ending ∷ [] }) (refl, tt) refl
      confirmed_can_end nobody_lost refl

abbrev beaten : List PlayerStatusModel
beaten = record alice { confirm_turn = true } ∷ record bob { on_board = []; on_hand = [] } ∷ []

abbrev won : Match
won = record the_match { player_statuses = beaten }

bob_lost : get_winner_status beaten ≡ some (record alice { confirm_turn = true })
unfolding get_winner_status
bob_lost = refl

beaten_can_end : validate_end_turn 1 beaten ≡ ok tt
unfolding validate_end_turn
beaten_can_end = refl

end_turn-wins_example :
    let w' = (end_turn env 1 (record world { matches = won ∷ [] })).1 in
    (find_by_id env.model 1 w'.matches ≡ some (record won { winner_id = some 1 }))
    × (w'.jobs ≡ without_job env (some 1) world.jobs)
    × (env.match_queue.get_job 1 w'.jobs ≡ none)
end_turn-wins_example =
    end_turn-wins env 1 1 won (record alice { confirm_turn = true })
      (record world { matches = won ∷ [] }) (refl, tt) refl beaten_can_end bob_lost refl
