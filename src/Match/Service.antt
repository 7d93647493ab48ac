-- ===== src/Match/Service.antt =====
-- src/module/match/match.service.ts and consumer/match.consumer.ts: the methods of the match
-- service over the collection of matches, the queue of timeouts and the published messages.
pub mod Duels
pub mod Effects
pub mod Timeouts
use Prim.Native.String.{String}
use zombiies_api.Common.{
  ℕ, suc, ◌+◌, Bool, true, false, ◌≡◌, not, ◌&&◌, Option, none, some, List, [], ◌∷◌, ◌++◌, ◌==◌,
  if◌then◌else◌, any, find, Result, ok, err, bad_request, not_found, type_error, or_throw, Action,
  lift, gets, modify, Collection, find_by_id, update_one, JobQueue, Random,
}
use zombiies_api.Common.Async.{◌>>=◌, ◌>>◌}
use zombiies_api.Card.Model.{CardTokenModel}
use zombiies_api.Deck.Model.{Deck, DeckCard, DeckCardModel}
use zombiies_api.Match.Model.{
  Match, PlayerStatusModel, MatchEvent, match_started, match_ended, reward_received,
  prepare_turn_event, put_card, deny_card, confirm_turn_event, end_turn_event,
}
use zombiies_api.Match.Combat.{Round}
use zombiies_api.Match.Hand.{Lodash}
use zombiies_api.Match.Turn.{
  is_player, opponent_of, confirm_statuses, put_statuses, deny_statuses, validate_end_turn,
  end_turn_statuses, get_winner_status, initial_status,
}

-- What the service is injected with. `award` is `CardService.award`, and the two deck methods are
-- those of `DeckService`; they act on a state `E` of their own.
pub record MatchEnv (S Q E : Type 0) : Type 0 where
  pub model : Collection S Match
  pub id_lem : (m : Match) → model.id m ≡ m.id
  pub match_queue : JobQueue Q ℕ
  pub random : Random
  pub lodash : Lodash
  pub award : ℕ → Option Match → Action E (Option CardTokenModel)
  pub owned_deck_by_user_id : ℕ → Action E (Option Deck)
  pub get_deck_card_models : List DeckCard → Action E (List DeckCardModel)

pub record World (S Q E : Type 0) : Type 0 where
  pub matches : S
  pub jobs : Q
  pub others : E
  pub draws : ℕ
  pub events : List MatchEvent

abbrev is_none : Option ℕ → Bool
is_none none = true
is_none (some w) = false

-- The filter of `getPlayingMatch`: a match of the user that nobody has won.
abbrev pub is_playing : ℕ → Match → Bool
is_playing user m = any (is_player user) m.player_statuses && is_none m.winner_id

-- `playerStatuses.find((s) => !s.inTurn)`.
abbrev pub waiting_player : List PlayerStatusModel → Option PlayerStatusModel
waiting_player = find (λ s. not s.in_turn)

module _ {S Q E : Type 0} (env : MatchEnv S Q E) where
  open env use {model, match_queue, random, lodash}

  abbrev pub MatchAction : Type 0 → Type 0
  MatchAction = Action (World S Q E)

  abbrev pub publish : MatchEvent → MatchAction (Unit {0})
  publish e = modify (λ w. record w { events = w.events ++ e ∷ [] })

  -- A method of another service.
  abbrev pub other : {A : Type 0} → Action E A → MatchAction A
  other m w = let (r, e) = m w.others in (r, record w { others = e })

  abbrev pub find_by_id_and_update : ℕ → (Match → Match) → MatchAction (Option Match)
  find_by_id_and_update id f w =
      let matches' = update_one model id f w.matches in
      (ok (find_by_id model id matches'), record w { matches = matches' })

  abbrev pub get_playing_match : ℕ → MatchAction (Option Match)
  get_playing_match user = gets (λ w. model.find_one (is_playing user) w.matches)

  abbrev pub get_playing_match_or_fail : ℕ → MatchAction Match
  get_playing_match_or_fail user = do
    found ← get_playing_match user
    lift (or_throw found (bad_request "You are not in a match"))

  abbrev pub find_by_id_or_fail : ℕ → MatchAction Match
  find_by_id_or_fail id = do
    found ← gets (λ w. find_by_id model id w.matches)
    lift (or_throw found (not_found "Not found match with id"))

  unfoldable pub create_match_timeout_job : Match → MatchAction ℕ
  create_match_timeout_job m w =
      let (id, jobs) = match_queue.add m.id "70 seconds" w.jobs in (ok id, record w { jobs = jobs })

  unfoldable pub add_timeout_job_to_match : Match → MatchAction (Option Match)
  unfolding create_match_timeout_job
  add_timeout_job_to_match m = do
    job ← create_match_timeout_job m
    find_by_id_and_update m.id (λ d. record d { timeout_job_id = some job })

  unfoldable pub end_match : Match → ℕ → MatchAction (Unit {0})
  end_match m winner = do
    new_match ← find_by_id_and_update m.id (λ d. record d { winner_id = some winner })
    publish (match_ended new_match)
    reward ← other (env.award winner new_match)
    publish (reward_received winner reward)

  unfoldable pub surrender : ℕ → MatchAction (Unit {0})
  unfolding end_match
  surrender user = do
    m ← get_playing_match_or_fail user
    winner ← lift (or_throw (opponent_of user m.player_statuses) type_error)
    end_match m winner.player_id

  abbrev set_statuses : List PlayerStatusModel → Match → Match
  set_statuses statuses d = record d { player_statuses = statuses }

  unfoldable pub confirm_turn : ℕ → MatchAction (Unit {0})
  confirm_turn user = do
    m ← get_playing_match_or_fail user
    draws ← gets (λ w. w.draws)
    confirmed ← lift (confirm_statuses random draws user m.player_statuses)
    modify (λ w. record w { draws = confirmed.1.draws })
    new_match ← find_by_id_and_update m.id (set_statuses confirmed.0)
    publish (confirm_turn_event user confirmed.1.attacks new_match)

  unfoldable pub deny_card_of : ℕ → ℕ → MatchAction (Unit {0})
  deny_card_of user token_id = do
    m ← get_playing_match_or_fail user
    statuses ← lift (deny_statuses user token_id m.player_statuses)
    new_match ← find_by_id_and_update m.id (set_statuses statuses)
    publish (prepare_turn_event deny_card user token_id none new_match)

  unfoldable pub put_to_board : ℕ → ℕ → ℕ → MatchAction (Unit {0})
  put_to_board user token_id position = do
    m ← get_playing_match_or_fail user
    statuses ← lift (put_statuses lodash user token_id position m.player_statuses)
    new_match ← find_by_id_and_update m.id (set_statuses statuses)
    publish (prepare_turn_event put_card user token_id (some position) new_match)

  -- `getJob` of an absent id finds no job.
  abbrev pub without_job : Option ℕ → Q → Q
  without_job none jobs = jobs
  without_job (some id) jobs = elim (match_queue.get_job id jobs) [
    | none ↦ jobs
    | some job ↦ match_queue.remove id jobs
  ]

  abbrev remove_timeout_job : Option ℕ → MatchAction (Unit {0})
  remove_timeout_job id = modify (λ w. record w { jobs = without_job id w.jobs })

  abbrev next_turn : ℕ → Match → MatchAction (Unit {0})
  unfolding create_match_timeout_job
  next_turn user m = do
    job ← create_match_timeout_job m
    new_match ← find_by_id_and_update m.id (λ d. record d {
      player_statuses = end_turn_statuses user m.player_statuses;
      timeout_job_id = some job;
    })
    publish (end_turn_event user new_match)

  abbrev end_or_pass : ℕ → Match → Option PlayerStatusModel → MatchAction (Unit {0})
  unfolding create_match_timeout_job
  end_or_pass user m (some winner) = end_match m winner.player_id
  end_or_pass user m none = next_turn user m

  unfoldable pub end_turn : ℕ → MatchAction (Unit {0})
  unfolding end_match create_match_timeout_job
  end_turn user = do
    m ← get_playing_match_or_fail user
    lift (validate_end_turn user m.player_statuses)
    remove_timeout_job m.timeout_job_id
    end_or_pass user m (get_winner_status m.player_statuses)

  abbrev player_status : ℕ → Bool → MatchAction PlayerStatusModel
  player_status user first = do
    deck ← other (env.owned_deck_by_user_id user)
    found ← lift (or_throw deck type_error)
    cards ← other (env.get_deck_card_models found.deck_cards)
    lift (ok (initial_status user cards first))

  -- `Math.random() >= 0.5 ? [player1Id, player2Id] : [player2Id, player1Id]`.
  abbrev pub shuffled : Bool → ℕ → ℕ → ℕ × ℕ
  shuffled true p1 p2 = (p1, p2)
  shuffled false p1 p2 = (p2, p1)

  -- The end of `createMatch`: the document is saved, gets its timeout, and is published.
  unfoldable pub start_match : PlayerStatusModel → PlayerStatusModel → MatchAction Match
  unfolding add_timeout_job_to_match
  start_match first second = do
    id ← gets (λ w. model.new_id w.matches)
    let m : Match = record {
      id = id;
      player_statuses = first ∷ second ∷ [];
      timeout_job_id = none;
      winner_id = none;
    }
    modify (λ w. record w { matches = model.create (λ i. record m { id = i }) w.matches })
    with_timeout ← add_timeout_job_to_match m
    started ← lift (or_throw with_timeout type_error)
    publish (match_started (some started))
    lift (ok m)

  -- The two decks are read at the same time; neither read changes what the other sees.
  unfoldable pub create_match : ℕ → ℕ → MatchAction Match
  unfolding start_match
  create_match player1 player2 = do
    coin ← gets (λ w. random.coin w.draws)
    modify (λ w. record w { draws = suc w.draws })
    let order = shuffled coin player1 player2
    first ← player_status order.0 true
    second ← player_status order.1 false
    start_match first second

  abbrev end_if_waiting : Match → Option PlayerStatusModel → MatchAction (Unit {0})
  end_if_waiting m none = lift (ok tt)
  end_if_waiting m (some winner) = end_match m winner.player_id

  -- `MatchConsumer.matchTimeout`: the player who is not in turn wins.
  unfoldable pub match_timeout : ℕ → MatchAction (Unit {0})
  unfolding end_match
  match_timeout match_id = do
    m ← find_by_id_or_fail match_id
    end_if_waiting m (waiting_player m.player_statuses)
