-- ===== src/Match/Service/Duels/Methods.antt =====
-- Every method of the match service keeps the stored matches duels, however the call ends.
use zombiies_api.Common.{
  ℕ, suc, ◌≡◌, ◌≢◌, inl, inr, sym, Bool, true, false, Option, none, some, List, [], ◌∷◌, All,
  All-find_one, All-update_one, All-create, ok, arith, Option-cases, Result-cases, lift, or_throw,
  type_error, ok-injective, Action, find_by_id,
}
use zombiies_api.Common.Ensures.{Ensures, Ensures-bind, Ensures-lift}
use zombiies_api.Deck.Model.{DeckCardModel}
use zombiies_api.Match.Model.{Match, PlayerStatusModel, MatchEvent}
use zombiies_api.Match.Turn.{
  confirm_statuses, put_statuses, deny_statuses, validate_end_turn, get_winner_status, opponent_of,
  initial_status,
}
use zombiies_api.Match.Turn.Roles.{
  IsDuel, put_statuses-IsDuel, deny_statuses-IsDuel, confirm_statuses-IsDuel,
  end_turn_statuses-IsDuel, initial_status-IsDuel,
}
use zombiies_api.Match.Service.{
  MatchEnv, World, is_playing, waiting_player, find_by_id_and_update, end_match, surrender,
  confirm_turn, deny_card_of, put_to_board, end_or_pass, end_turn, player_status, publish, shuffled,
  start_match, other, create_match, match_timeout, create_match_timeout_job,
  add_timeout_job_to_match,
}

module _ {S Q E : Type 0} (env : MatchEnv S Q E) where
  open env use {model}

  abbrev pub AllDuels : World S Q E → Type 0
  AllDuels w = All (λ m. IsDuel m.player_statuses) (model.docs w.matches)

  -- An update that sets duels keeps them all.
  update-AllDuels :
      (id : ℕ) (f : Match → Match) (w : World S Q E)
      → ((m : Match) → IsDuel m.player_statuses → IsDuel (f m).player_statuses)
      → AllDuels w
      → AllDuels (find_by_id_and_update env id f w).1
  update-AllDuels id f w k h =
      All-update_one model (λ m. IsDuel m.player_statuses) id f w.matches h (λ m _ d. k m d)

  end_match-AllDuels :
      (m : Match) (winner : ℕ) (w : World S Q E)
      → AllDuels w
      → AllDuels (end_match env m winner w).1
  unfolding end_match
  end_match-AllDuels m winner w h =
      ground
        (arith, update-AllDuels m.id (λ d. record d { winner_id = some winner }) w (λ d k. k) h)

  playing-IsDuel :
      (user : ℕ) (w : World S Q E) (m : Match)
      → AllDuels w
      → model.find_one (is_playing user) w.matches ≡ some m
      → IsDuel m.player_statuses
  playing-IsDuel user w m h e =
      All-find_one model (λ d. IsDuel d.player_statuses) (is_playing user) w.matches h e

  set-AllDuels :
      (id : ℕ) (statuses : List PlayerStatusModel) (w : World S Q E)
      → IsDuel statuses
      → AllDuels w
      → AllDuels (find_by_id_and_update env id (λ d. record d { player_statuses = statuses }) w).1
  set-AllDuels id statuses w d = update-AllDuels id _ w (λ _ _. d)

  pub put_to_board-AllDuels :
      (user token_id position : ℕ) (w : World S Q E)
      → AllDuels w
      → AllDuels (put_to_board env user token_id position w).1
  unfolding put_to_board
  put_to_board-AllDuels user token_id position w h =
      elim (Option-cases (model.find_one (is_playing user) w.matches)) [
        | inl n ↦ rw n h
        | inr (m, f) ↦
            elim (Result-cases (put_statuses env.lodash user token_id position m.player_statuses)) [
              | inr (x, e) ↦ rw (f, e) h
              | inl (st, e) ↦
                  rw (f, e)
                    (set-AllDuels m.id st w
                      (put_statuses-IsDuel env.lodash user token_id position m.player_statuses st e
                        (playing-IsDuel user w m h f))
                      h)
            ]
      ]

  pub deny_card_of-AllDuels :
      (user token_id : ℕ) (w : World S Q E)
      → AllDuels w
      → AllDuels (deny_card_of env user token_id w).1
  unfolding deny_card_of
  deny_card_of-AllDuels user token_id w h =
      elim (Option-cases (model.find_one (is_playing user) w.matches)) [
        | inl n ↦ rw n h
        | inr (m, f) ↦ elim (Result-cases (deny_statuses user token_id m.player_statuses)) [
          | inr (x, e) ↦ rw (f, e) h
          | inl (st, e) ↦
              rw (f, e)
                (set-AllDuels m.id st w
                  (deny_statuses-IsDuel user token_id m.player_statuses st e
                    (playing-IsDuel user w m h f))
                  h)
        ]
      ]

  pub confirm_turn-AllDuels :
      (user : ℕ) (w : World S Q E) → AllDuels w → AllDuels (confirm_turn env user w).1
  unfolding confirm_turn
  confirm_turn-AllDuels user w h =
      elim (Option-cases (model.find_one (is_playing user) w.matches)) [
        | inl n ↦ rw n h
        | inr (m, f) ↦
            elim (Result-cases (confirm_statuses env.random w.draws user m.player_statuses)) [
              | inr (x, e) ↦ rw (f, e) h
              | inl (c, e) ↦
                  rw (f, e)
                    (set-AllDuels m.id c.0 w
                      (confirm_statuses-IsDuel env.random w.draws user m.player_statuses c e
                        (playing-IsDuel user w m h f))
                      h)
            ]
      ]

  pub surrender-AllDuels :
      (user : ℕ) (w : World S Q E) → AllDuels w → AllDuels (surrender env user w).1
  unfolding surrender
  surrender-AllDuels user w h = elim (Option-cases (model.find_one (is_playing user) w.matches)) [
    | inl n ↦ rw n h
    | inr (m, f) ↦ elim (Option-cases (opponent_of user m.player_statuses)) [
      | inl n ↦ rw (f, n) h
      | inr (o, g) ↦ rw (f, g) (end_match-AllDuels m o.player_id w h)
    ]
  ]

  pub match_timeout-AllDuels :
      (id : ℕ) (w : World S Q E) → AllDuels w → AllDuels (match_timeout env id w).1
  unfolding match_timeout
  match_timeout-AllDuels id w h = elim (Option-cases (find_by_id model id w.matches)) [
    | inl n ↦ rw n h
    | inr (m, f) ↦ elim (Option-cases (waiting_player m.player_statuses)) [
      | inl n ↦ rw (f, n) h
      | inr (o, g) ↦ rw (f, g) (end_match-AllDuels m o.player_id w h)
    ]
  ]

  end_or_pass-AllDuels :
      (user : ℕ) (m : Match) (o : Option PlayerStatusModel) (w : World S Q E)
      → validate_end_turn user m.player_statuses ≡ ok tt
      → IsDuel m.player_statuses
      → AllDuels w
      → AllDuels (end_or_pass env user m o w).1
  unfolding end_turn
  end_or_pass-AllDuels user m (some winner) w v d h = end_match-AllDuels m winner.player_id w h
  end_or_pass-AllDuels user m none w v d h =
      update-AllDuels m.id _ (create_match_timeout_job env m w).1
        (λ _ _. end_turn_statuses-IsDuel user m.player_statuses v d) h

  pub end_turn-AllDuels :
      (user : ℕ) (w : World S Q E) → AllDuels w → AllDuels (end_turn env user w).1
  unfolding end_turn
  end_turn-AllDuels user w h = elim (Option-cases (model.find_one (is_playing user) w.matches)) [
    | inl n ↦ rw n h
    | inr (m, f) ↦ elim (Result-cases (validate_end_turn user m.player_statuses)) [
      | inr (x, e) ↦ rw (f, e) h
      | inl (st, e) ↦
          rw (f, e)
            (end_or_pass-AllDuels user m (get_winner_status m.player_statuses) _ e
              (playing-IsDuel user w m h f) h)
    ]
  ]

  -- What `createMatch` computes for a player.
  abbrev IsInitial : ℕ → Bool → PlayerStatusModel → Type 0
  IsInitial user first s = (cards : List DeckCardModel) × (s ≡ initial_status user cards first)

  Ensures-other : {A : Type 0} (a : Action E A) → Ensures AllDuels (λ _. Unit {0}) (other env a)
  Ensures-other a w h = (h, λ _ _. tt)

  Ensures-publish : (e : MatchEvent) → Ensures AllDuels (λ _. Unit {0}) (publish env e)
  Ensures-publish e w h = (h, λ _ _. tt)

  player_status-IsInitial :
      (user : ℕ) (first : Bool)
      → Ensures AllDuels (IsInitial user first) (player_status env user first)
  player_status-IsInitial user first =
      Ensures-bind AllDuels (λ _. Unit {0}) _ (other env (env.owned_deck_by_user_id user)) _
        (Ensures-other (env.owned_deck_by_user_id user))
        λ deck _.
          Ensures-bind AllDuels (λ _. Unit {0}) _ (lift (or_throw deck type_error)) _
            (Ensures-lift AllDuels (λ _. Unit {0}) _ (λ _ _. tt))
            λ found _.
              Ensures-bind AllDuels (λ _. Unit {0}) _
                (other env (env.get_deck_card_models found.deck_cards)) _
                (Ensures-other (env.get_deck_card_models found.deck_cards))
                λ cards _.
                  Ensures-lift AllDuels (IsInitial user first) _
                    (λ s e. (cards, sym (ok-injective e)))

  IsInitial-IsDuel :
      (p1 p2 : ℕ) (s t : PlayerStatusModel)
      → p1 ≢ p2
      → IsInitial p1 true s
      → IsInitial p2 false t
      → IsDuel (s ∷ t ∷ [])
  IsInitial-IsDuel p1 p2 s t ne (cs, e) (ds, f) = rw (e, f) (initial_status-IsDuel p1 p2 cs ds ne)

  shuffled-ne :
      (coin : Bool) (p1 p2 : ℕ)
      → p1 ≢ p2
      → (shuffled env coin p1 p2).0 ≢ (shuffled env coin p1 p2).1
  shuffled-ne true p1 p2 ne = ne
  shuffled-ne false p1 p2 ne = λ e. ne (sym e)

  add_timeout_job_to_match-keeps :
      (m : Match) → Ensures AllDuels (λ _. Unit {0}) (add_timeout_job_to_match env m)
  unfolding add_timeout_job_to_match
  add_timeout_job_to_match-keeps m w h =
      (update-AllDuels m.id _ (create_match_timeout_job env m w).1 (λ _ d. d) h, λ _ _. tt)

  start_match-keeps :
      (s t : PlayerStatusModel)
      → IsDuel (s ∷ t ∷ [])
      → Ensures AllDuels (λ _. Unit {0}) (start_match env s t)
  unfolding start_match
  start_match-keeps s t d w h =
      let m : Match = record {
        id = model.new_id w.matches;
        player_statuses = s ∷ t ∷ [];
        timeout_job_id = none;
        winner_id = none;
      } in
      let saved : World S Q E = record w {
        matches = model.create (λ i. record m { id = i }) w.matches;
      } in
      let kept =
        (add_timeout_job_to_match-keeps m saved (
          All-create model (λ x. IsDuel x.player_statuses) (λ i. record m { id = i }) w.matches h
            d)).0 in
      elim (Option-cases (find_by_id model m.id (add_timeout_job_to_match env m saved).1.matches)) [
        | inl n ↦ rw n (kept, λ _ _. tt)
        | inr (x, f) ↦ rw f (kept, λ _ _. tt)
      ]

  pub create_match-AllDuels :
      (p1 p2 : ℕ) (w : World S Q E) → p1 ≢ p2 → AllDuels w → AllDuels (create_match env p1 p2 w).1
  unfolding create_match
  create_match-AllDuels p1 p2 w ne h =
      let order = shuffled env (env.random.coin w.draws) p1 p2 in
      (Ensures-bind AllDuels (IsInitial order.0 true) (λ _. Unit {0})
        (player_status env order.0 true) _ (player_status-IsInitial order.0 true)
        (λ first i.
          Ensures-bind AllDuels (IsInitial order.1 false) (λ _. Unit {0})
            (player_status env order.1 false) _ (player_status-IsInitial order.1 false)
            (λ second j. start_match-keeps first second (
              IsInitial-IsDuel order.0 order.1 first second
                (shuffled-ne (env.random.coin w.draws) p1 p2 ne) i j)))
        (record w { draws = suc w.draws }) h).0
