-- ===== src/Match/Service/Effects.antt =====
-- The moves of a player as the service runs them: all or nothing, and what is stored and published.
use zombiies_api.Common.{
  ℕ, ◌≡◌, ◌≢◌, refl, inl, inr, sym, ap, subst, ◌∙◌, Option, none, some, List, [], ◌∷◌, ◌++◌, Result,
  ok, err, Error, ◌==◌, Option-cases, Result-cases, find_by_id, find_by_id-update_self,
  find_by_id-update_ne, IsKeyed, find_one-IsKeyed,
}
use zombiies_api.Match.Model.{
  Match, PlayerStatusModel, MatchEvent, prepare_turn_event, confirm_turn_event, put_card, deny_card,
}
use zombiies_api.Match.Combat.{Round}
use zombiies_api.Match.Turn.{confirm_statuses, put_statuses, deny_statuses}
use zombiies_api.Match.Service.{
  MatchEnv, World, is_playing, confirm_turn, deny_card_of, put_to_board,
}

module _ {S Q E : Type 0} (env : MatchEnv S Q E) where
  open env use {model}

  -- The match found has the new statuses and is published so; every other match, the jobs and the
  -- earlier messages are as they were.
  pub record IsStored (w w' : World S Q E) (m : Match) (statuses : List PlayerStatusModel)
      (event : Option Match → MatchEvent) : Type 0 where
    pub stored : find_by_id model m.id w'.matches ≡ some (record m { player_statuses = statuses })
    pub others_kept :
        (j : ℕ) → j ≢ m.id → find_by_id model j w'.matches ≡ find_by_id model j w.matches
    pub published :
        w'.events ≡ w.events ++ event (some (record m { player_statuses = statuses })) ∷ []
    pub jobs_kept : w'.jobs ≡ w.jobs

  -- A player's move: an exception leaves everything as it was, and a success stores and publishes
  -- what the move computes from the match in which the user plays.
  abbrev pub Moves :
      World S Q E
      → ℕ
      → (Match → Result (List PlayerStatusModel))
      → (Option Match → MatchEvent)
      → Result (Unit {0}) × World S Q E
      → Type 0
  Moves w user new event r =
      ((e : Error) → r.0 ≡ err e → r.1 ≡ w)
      × (r.0 ≡ ok tt
          → (m : Match) × (statuses : List PlayerStatusModel) × (model.find_one (is_playing user)
                w.matches
              ≡ some m)
            × (new m ≡ ok statuses)
            × IsStored w r.1 m statuses event)

  set_statuses-IsStored :
      (w w' : World S Q E) (m : Match) (statuses : List PlayerStatusModel)
      (event : Option Match → MatchEvent)
      → find_by_id model m.id w.matches ≡ some m
      → w'.matches
        ≡ model.update_many
            (λ d. model.id d == m.id)
            (λ d. record d { player_statuses = statuses })
            w.matches
      → w'.events ≡ w.events ++ event (find_by_id model m.id w'.matches) ∷ []
      → w'.jobs ≡ w.jobs
      → IsStored w w' m statuses event
  set_statuses-IsStored w w' m statuses event f u p j =
      let set : Match → Match = λ d. record d { player_statuses = statuses } in
      let kept : (x : Match) → model.id (set x) ≡ model.id x =
        λ x. env.id_lem (set x) ∙ sym (env.id_lem x) in
      let now : find_by_id model m.id w'.matches ≡ some (set m) =
        rw u (find_by_id-update_self model m.id set w.matches m kept f) in
      record {
        stored = now;
        others_kept =
            λ i ne. rw u (find_by_id-update_ne model m.id i set w.matches kept (λ e. ne (sym e)));
        published = p ∙ ap (λ (x : Option Match). w.events ++ event x ∷ []) now;
        jobs_kept = j;
      }

  pub playing-by_id :
      (user : ℕ) (w : World S Q E) (m : Match)
      → IsKeyed model w.matches
      → model.find_one (is_playing user) w.matches ≡ some m
      → find_by_id model m.id w.matches ≡ some m
  playing-by_id user w m k f =
      subst (λ (i : ℕ). find_by_id model i w.matches ≡ some m) (env.id_lem m)
        (find_one-IsKeyed model (is_playing user) w.matches k f)

  -- `putToBoard` is a move: on an exception nothing has changed, and otherwise the match holds the
  -- statuses that the put computes, which are published.
  pub put_to_board-Moves :
      (user token_id position : ℕ) (w : World S Q E)
      → IsKeyed model w.matches
      → Moves w user
          (λ m. put_statuses env.lodash user token_id position m.player_statuses)
          (prepare_turn_event put_card user token_id (some position))
          (put_to_board env user token_id position w)
  unfolding put_to_board
  put_to_board-Moves user token_id position w k =
      elim (Option-cases (model.find_one (is_playing user) w.matches)) [
        | inl n ↦ rw n ((λ e h. refl), λ h. cc)
        | inr (m, f) ↦
            elim (Result-cases (put_statuses env.lodash user token_id position m.player_statuses)) [
              | inr (x, e) ↦ rw (f, e) ((λ y h. refl), λ h. cc)
              | inl (st, e) ↦
                  rw (f, e)
                    (
                      (λ y h. cc),
                      λ h. (
                        m,
                        st,
                        refl,
                        e,
                        set_statuses-IsStored w _ m st _ (playing-by_id user w m k f) refl refl
                            refl,
                      ),
                    )
            ]
      ]

  -- `denyCard` is a move in the same way.
  pub deny_card_of-Moves :
      (user token_id : ℕ) (w : World S Q E)
      → IsKeyed model w.matches
      → Moves w user
          (λ m. deny_statuses user token_id m.player_statuses)
          (prepare_turn_event deny_card user token_id none)
          (deny_card_of env user token_id w)
  unfolding deny_card_of
  deny_card_of-Moves user token_id w k =
      elim (Option-cases (model.find_one (is_playing user) w.matches)) [
        | inl n ↦ rw n ((λ e h. refl), λ h. cc)
        | inr (m, f) ↦ elim (Result-cases (deny_statuses user token_id m.player_statuses)) [
          | inr (x, e) ↦ rw (f, e) ((λ y h. refl), λ h. cc)
          | inl (st, e) ↦
              rw (f, e)
                (
                  (λ y h. cc),
                  λ h. (
                    m,
                    st,
                    refl,
                    e,
                    set_statuses-IsStored w _ m st _ (playing-by_id user w m k f) refl refl refl,
                  ),
                )
        ]
      ]

  -- `confirmTurn` leaves everything as it was on an exception, the draws included. Otherwise the match
  -- holds the statuses after the attacks, the attacks are published with it, and the next draw is the
  -- one after those of the attacks.
  pub confirm_turn_lem :
      (user : ℕ) (w : World S Q E)
      → IsKeyed model w.matches
      → let r = confirm_turn env user w in
        ((e : Error) → r.0 ≡ err e → r.1 ≡ w)
        × (r.0 ≡ ok tt
            → (m : Match) × (statuses : List PlayerStatusModel) × (round : Round) × (model.find_one
                  (is_playing user)
                  w.matches
                ≡ some m)
              × (confirm_statuses env.random w.draws user m.player_statuses ≡ ok (statuses, round))
              × (r.1.draws ≡ round.draws)
              × IsStored w r.1 m statuses (confirm_turn_event user round.attacks))
  unfolding confirm_turn
  confirm_turn_lem user w k = elim (Option-cases (model.find_one (is_playing user) w.matches)) [
    | inl n ↦ rw n ((λ e h. refl), λ h. cc)
    | inr (m, f) ↦
        elim (Result-cases (confirm_statuses env.random w.draws user m.player_statuses)) [
          | inr (x, e) ↦ rw (f, e) ((λ y h. refl), λ h. cc)
          | inl ((st, round), e) ↦
              rw (f, e)
                (
                  (λ y h. cc),
                  λ h. (
                    m,
                    st,
                    round,
                    refl,
                    e,
                    refl,
                    set_statuses-IsStored w _ m st _ (playing-by_id user w m k f) refl refl refl,
                  ),
                )
        ]
  ]
