-- ===== src/Match/Service/Timeouts.antt =====
-- The end of a match, and the timeout job that ends it for a player who does not move.
use zombiies_api.Common.{
  ℕ, ◌≡◌, ◌≢◌, refl, inl, inr, sym, ap, subst, ◌∙◌, false, Option, none, some, List, [], ◌∷◌, ok,
  ◌==◌, if◌then◌else◌, ==_refl, arith, Bool-cases, Option-cases, Result-cases, find_by_id,
  find_by_id-update_self, IsKeyed,
}
use zombiies_api.Match.Model.{Match, PlayerStatusModel}
use zombiies_api.Match.Turn.{
  opponent_of, status_of, validate_end_turn, end_turn_statuses, get_winner_status,
}
use zombiies_api.Match.Turn.Roles.{IsDuel}
use zombiies_api.Match.Service.{
  MatchEnv, World, is_playing, waiting_player, end_match, surrender, end_turn, match_timeout,
  without_job,
}
use zombiies_api.Match.Service.Effects.{playing-by_id}

module _ {S Q E : Type 0} (env : MatchEnv S Q E) where
  open env use {model, match_queue}

  winner-keeps_id :
      (winner : ℕ) (x : Match) → model.id (record x { winner_id = some winner }) ≡ model.id x
  winner-keeps_id winner x = env.id_lem (record x { winner_id = some winner }) ∙ sym (env.id_lem x)

  -- The winner is stored before the reward is asked for, so it stays even if that throws; the jobs are
  -- not touched.
  end_match-winner :
      (m m' : Match) (winner : ℕ) (w : World S Q E)
      → find_by_id model m.id w.matches ≡ some m'
      → let w' = (end_match env m winner w).1 in
        (find_by_id model m.id w'.matches ≡ some (record m' { winner_id = some winner }))
        × (w'.jobs ≡ w.jobs)
  unfolding end_match
  end_match-winner m m' winner w f =
      let set : Match → Match = λ d. record d { winner_id = some winner } in
      let stored = find_by_id-update_self model m.id set w.matches m' (winner-keeps_id winner) f in
      elim (Result-cases
        (env.award winner
          (find_by_id model m.id (model.update_many (λ d. model.id d == m.id) set w.matches))
          w.others).0) [ inl (a, e) ↦ rw e (stored, refl) | inr (a, e) ↦ rw e (stored, refl) ]

  -- When the timeout of a stored match fires, the player who is not in turn becomes its winner,
  -- whether or not the match had a winner already.
  pub match_timeout-winner :
      (m : Match) (s : PlayerStatusModel) (w : World S Q E)
      → find_by_id model m.id w.matches ≡ some m
      → waiting_player m.player_statuses ≡ some s
      → find_by_id model m.id (match_timeout env m.id w).1.matches
        ≡ some (record m { winner_id = some s.player_id })
  unfolding match_timeout
  match_timeout-winner m s w f g = rw (f, g) (end_match-winner m m s.player_id w f).0

  waiting-duel :
      (user : ℕ) (statuses : List PlayerStatusModel) (s : PlayerStatusModel)
      → IsDuel statuses
      → status_of user statuses ≡ some s
      → s.in_turn ≡ false
      → (s.player_id ≡ user)
        × (waiting_player statuses ≡ some s)
        × ((o : PlayerStatusModel) × (opponent_of user statuses ≡ some o) × (o.player_id ≢ user))
  waiting-duel user [] s d f n = absurd d
  waiting-duel user (a ∷ []) s d f n = absurd d
  waiting-duel user (a ∷ b ∷ c ∷ e) s d f n = absurd d
  waiting-duel user (a ∷ b ∷ []) s d f n = elim (Bool-cases (a.player_id == user)) [
    | inl t ↦ (ground arith, ground arith, (b, ground (arith, t, d.0), ground (arith, t, d.0)))
    | inr t ↦ (ground arith, ground arith, (a, ground (arith, t), ground (arith, t)))
  ]

  -- A player who surrenders out of turn first loses the match to the other player. But the timeout of
  -- the match stays in the queue, and when it fires it makes the player who surrendered the winner.
  pub surrender_then_timeout :
      (user : ℕ) (m : Match) (s : PlayerStatusModel) (w : World S Q E)
      → IsKeyed model w.matches
      → model.find_one (is_playing user) w.matches ≡ some m
      → IsDuel m.player_statuses
      → status_of user m.player_statuses ≡ some s
      → s.in_turn ≡ false
      → let w₁ = (surrender env user w).1 in
        let w₂ = (match_timeout env m.id w₁).1 in
        (o : PlayerStatusModel) × (opponent_of user m.player_statuses ≡ some o)
        × (find_by_id model m.id w₁.matches ≡ some (record m { winner_id = some o.player_id }))
        × (w₁.jobs ≡ w.jobs)
        × (find_by_id model m.id w₂.matches ≡ some (record m { winner_id = some user }))
  unfolding surrender
  surrender_then_timeout user m s w k f d g n =
      let (same, waits, (o, op, ne)) = waiting-duel user m.player_statuses s d g n in
      let (stored, jobs) = end_match-winner m m o.player_id w (playing-by_id env user w m k f) in
      let w₁ = (end_match env m o.player_id w).1 in
      let late =
        match_timeout-winner (record m { winner_id = some o.player_id }) s w₁ stored waits in
      (
        o,
        op,
        rw (f, op) stored,
        rw (f, op) jobs,
        rw (f, op) (late ∙ ap (λ (i : ℕ). some (record m { winner_id = some i })) same),
      )

  get_job-without_job : (j : ℕ) (q : Q) → match_queue.get_job j (without_job env (some j) q) ≡ none
  get_job-without_job j q = elim (Option-cases (match_queue.get_job j q)) [
    | inl n ↦ ground (arith, n)
    | inr (d, e) ↦ ground (arith, e, match_queue.get_job-remove j j q)
  ]

  -- A turn that ends with no winner: the old timeout is out of the queue (unless the new one has
  -- taken its id), a new one for this match is in it, and the match records the new job and the
  -- statuses of the next turn.
  pub end_turn-next :
      (user j : ℕ) (m : Match) (w : World S Q E)
      → IsKeyed model w.matches
      → model.find_one (is_playing user) w.matches ≡ some m
      → validate_end_turn user m.player_statuses ≡ ok tt
      → get_winner_status m.player_statuses ≡ none
      → m.timeout_job_id ≡ some j
      → let (r, w') = end_turn env user w in
        (job : ℕ) × (r ≡ ok tt)
        × (find_by_id model m.id w'.matches
            ≡ some (record m {
              player_statuses = end_turn_statuses user m.player_statuses;
              timeout_job_id = some job;
            }))
        × (match_queue.get_job job w'.jobs ≡ some m.id)
        × (match_queue.get_job j w'.jobs ≡ (if job == j then some m.id else none))
  unfolding end_turn
  end_turn-next user j m w k f v n t =
      let jobs = without_job env m.timeout_job_id w.jobs in
      let absent =
        subst (λ (o : Option ℕ). match_queue.get_job j (without_job env o w.jobs) ≡ none) (sym t)
          (get_job-without_job j w.jobs) in
      let added = match_queue.add m.id "70 seconds" jobs in
      let set : Match → Match = λ d. record d {
        player_statuses = end_turn_statuses user m.player_statuses;
        timeout_job_id = some added.0;
      } in
      let kept : (x : Match) → model.id (set x) ≡ model.id x =
        λ x. env.id_lem (set x) ∙ sym (env.id_lem x) in
      let stored =
        find_by_id-update_self model m.id set w.matches m kept (playing-by_id env user w m k f) in
      let new : match_queue.get_job added.0 added.1 ≡ some m.id =
        match_queue.get_job-add added.0 m.id "70 seconds" jobs ∙ rw (==_refl added.0) in
      let gone : match_queue.get_job j added.1 ≡ (if added.0 == j then some m.id else none) =
        match_queue.get_job-add j m.id "70 seconds" jobs ∙ rw absent in
      (added.0, rw (f, v, n) refl, rw (f, v, n) stored, rw (f, v, n) new, rw (f, v, n) gone)

  -- A turn that ends with a winner: the timeout is out of the queue, none takes its place, and the
  -- match has its winner.
  pub end_turn-wins :
      (user j : ℕ) (m : Match) (winner : PlayerStatusModel) (w : World S Q E)
      → IsKeyed model w.matches
      → model.find_one (is_playing user) w.matches ≡ some m
      → validate_end_turn user m.player_statuses ≡ ok tt
      → get_winner_status m.player_statuses ≡ some winner
      → m.timeout_job_id ≡ some j
      → let w' = (end_turn env user w).1 in
        (find_by_id model m.id w'.matches ≡ some (record m { winner_id = some winner.player_id }))
        × (w'.jobs ≡ without_job env m.timeout_job_id w.jobs)
        × (match_queue.get_job j w'.jobs ≡ none)
  unfolding end_turn
  end_turn-wins user j m winner w k f v n t =
      let started : World S Q E = record w { jobs = without_job env m.timeout_job_id w.jobs } in
      let absent =
        subst (λ (o : Option ℕ). match_queue.get_job j (without_job env o w.jobs) ≡ none) (sym t)
          (get_job-without_job j w.jobs) in
      let (stored, jobs) =
        end_match-winner m m winner.player_id started (playing-by_id env user w m k f) in
      (
        rw (f, v, n) stored,
        rw (f, v, n) jobs,
        rw (f, v, n) (ap (match_queue.get_job j) jobs ∙ absent),
      )
