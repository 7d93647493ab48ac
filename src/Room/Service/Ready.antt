-- ===== src/Room/Service/Ready.antt =====
-- What a user gets from `joinOrCreateRoom` and `ready` of src/module/room/room.service.ts.
use zombiies_api.Common.{
  ℕ, Result, ◌⊎◌, arith, delete_one, not_found, if◌then◌else◌, Bool-cases, All-find_one, ◌≡◌, refl,
  sym, ◌∙◌, inl, inr, Bool, true, false, none, some, ok, err, Result-cases, Option-cases, is_some,
  is_ok, update_one, bad_request, find_holds, ◌++◌, [], ◌∷◌, or_throw, type_error, find_by_id,
  find_by_id-update_self, IsKeyed, find_one-IsKeyed,
}
use zombiies_api.Common.Keys.{find_one-delete_one}
use zombiies_api.Match.Service.{is_playing, create_match}
use zombiies_api.Room.Model.{Room, all_ready}
use zombiies_api.Room.Service.{
  RoomEnv, World, truthy, is_first, is_joined, is_waiting, with_ready, both_ready,
  join_or_create_room, ready, without_job,
}
use zombiies_api.Room.Service.Pairs.{IsPair, RoomsOk, ready-RoomsOk}

module _ {S Q M J O : Type 0} (env : RoomEnv S Q M J O) where
  open env use {model, match_service, queue}

  abbrev pub playing : ℕ → World S Q M J O → Bool
  playing user w = is_some (match_service.model.find_one (is_playing user) w.match_world.matches)

  abbrev pub in_room : ℕ → World S Q M J O → Bool
  in_room user w = is_some (model.find_one (is_joined user) w.rooms)

  -- A user who plays a match or is in a room is refused, with nothing changed; any other user gets a
  -- room without an exception, and the match service is left as it was.
  join_or_create_room_lem :
      (user : ℕ) (w : World S Q M J O)
      → let (r, v) = join_or_create_room env user w in
        (playing user w ≡ true → (r ≡ err (bad_request "You are in a match")) × (v ≡ w))
        × (playing user w ≡ false
            → in_room user w ≡ true
            → (r ≡ err (bad_request "You have joined a room")) × (v ≡ w))
        × (playing user w ≡ false
            → in_room user w ≡ false
            → (is_ok r ≡ true) × (v.match_world ≡ w.match_world))
  unfolding join_or_create_room
  join_or_create_room_lem user w =
      elim (Option-cases (match_service.model.find_one (is_playing user) w.match_world.matches)) [
        | inr (m, p) ↦ rw p ((λ _. (refl, refl)), (λ e. cc), λ e. cc)
        | inl p ↦ elim (Option-cases (model.find_one (is_joined user) w.rooms)) [
          | inr (r, j) ↦ rw (p, j) ((λ e. cc), (λ _ _. (refl, refl)), λ _ e. cc)
          | inl j ↦ elim (Option-cases (model.find_one is_waiting w.rooms)) [
            | inl n ↦ rw (p, j, n) ((λ e. cc), (λ _ e. cc), λ _ _. (refl, refl))
            | inr (r, n) ↦ rw (p, j, n) ((λ e. cc), (λ _ e. cc), λ _ _. (refl, refl))
          ]
        ]
      ]

  joined_found :
      (user : ℕ) (room : Room) (w : World S Q M J O)
      → model.find_one (is_joined user) w.rooms ≡ some room
      → is_joined user room ≡ true
  joined_found user room w f =
      find_holds (is_joined user) (model.docs w.rooms)
        (sym (model.find_one_lem (is_joined user) w.rooms) ∙ f)

  updated_found :
      (user : ℕ) (room : Room) (s : S)
      → IsKeyed model s
      → model.find_one (is_joined user) s ≡ some room
      → find_by_id model room.id (update_one model room.id (with_ready user room) s)
        ≡ some (with_ready user room room)
  updated_found user room s k f =
      let key = find_one-IsKeyed model (is_joined user) s k f in
      let stored : find_by_id model room.id s ≡ some room = rw (env.id_lem room) at key in
      find_by_id-update_self model room.id (with_ready user room) s room
        (λ d. env.id_lem (with_ready user room d) ∙ sym (env.id_lem d)) stored

  -- The flag of the player of a room who is not `user`.
  abbrev pub other_ready : ℕ → Room → Bool
  other_ready user room =
      if is_first user room then truthy room.player2_ready else truthy room.player1_ready

  -- What `ready` answers when `createMatch` has ended.
  abbrev pub match_answer : {A : Type 0} → Result A → Result Bool
  match_answer (ok m) = ok true
  match_answer (err x) = err x

  -- The other player is not ready: only the flag of the user in the stored room changes.
  abbrev pub Waits : ℕ → Room → World S Q M J O → Result Bool × World S Q M J O → Type 0
  Waits user room w (r, v) =
      (other_ready user room ≡ false)
      × (r ≡ ok true)
      × (find_by_id model room.id v.rooms ≡ some (with_ready user room room))
      × (v ≡ record w { rooms = v.rooms })

  -- The other player is ready: `createMatch` of the two players has run, and neither is in a room.
  abbrev pub Starts : ℕ → Room → World S Q M J O → Result Bool × World S Q M J O → Type 0
  Starts user room w (r, v) =
      (player2 : ℕ) × (other_ready user room ≡ true)
      × (room.player2 ≡ some player2)
      × (r ≡ match_answer (create_match match_service room.player1 player2 w.match_world).0)
      × (v.match_world ≡ (create_match match_service room.player1 player2 w.match_world).1)
      × (in_room room.player1 v ≡ false)
      × (in_room player2 v ≡ false)
      × (v.jobs ≡ without_job env room.timeout_job_id w.jobs)
      × (v.events ≡ w.events ++ all_ready (some room) ∷ [])

  -- The outcomes of `ready`.
  abbrev pub ReadyOutcome : ℕ → World S Q M J O → Result Bool × World S Q M J O → Type 0
  ReadyOutcome user w out =
      ((in_room user w ≡ false) × (out ≡ (err (not_found "Not found joined room"), w)))
      ⊎ ((room : Room) × (model.find_one (is_joined user) w.rooms ≡ some room)
          × (Waits user room w out ⊎ Starts user room w out))

  both_ready-other :
      (user : ℕ) (room : Room)
      → IsPair room
      → is_joined user room ≡ true
      → both_ready (with_ready user room room) ≡ other_ready user room
  both_ready-other user room h j = ground (arith, h.0, h.1, j)

  -- Once its room is deleted, a player of the room that `ready` has updated is in no room.
  leaves :
      (user player : ℕ) (room : Room) (s : S)
      → RoomsOk env s
      → model.find_one (is_joined user) s ≡ some room
      → is_joined player room ≡ true
      → is_some (
          model.find_one
            (is_joined player)
            (delete_one model room.id (update_one model room.id (with_ready user room) s)))
        ≡ false
  leaves user player room s h f j =
      let written = update_one model room.id (with_ready user room) s in
      let kept = ready-RoomsOk env user s room h f in
      let gone : model.find_one (is_joined player) (delete_one model room.id written) ≡ none =
        find_one-delete_one model (is_joined player) room.id written (kept.single player)
          (updated_found user room s h.keyed f) j in
      rw gone refl

  ready-Starts :
      (user player2 : ℕ) (room : Room) (w : World S Q M J O)
      → RoomsOk env w.rooms
      → model.find_one (is_joined user) w.rooms ≡ some room
      → room.player2 ≡ some player2
      → other_ready user room ≡ true
      → Starts user room w (ready env user w)
  unfolding ready
  ready-Starts user player2 room w h f p o =
      let joined = joined_found user room w f in
      let pair : IsPair room = All-find_one model IsPair (is_joined user) w.rooms h.pairs f in
      let both : both_ready (with_ready user room room) ≡ true =
        both_ready-other user room pair joined ∙ o in
      let found : or_throw room.player2 type_error ≡ ok player2 = rw p refl in
      let first = leaves user room.player1 room w.rooms h f (ground arith) in
      let second = leaves user player2 room w.rooms h f (ground (arith, p)) in
      elim (Result-cases (create_match match_service room.player1 player2 w.match_world).0) [
        | inl (m, e) ↦ rw f (
            rw (joined, both)
              (rw found (rw e (player2, o, p, rw e refl, refl, first, second, refl, refl))))
        | inr (x, e) ↦ rw f (
            rw (joined, both)
              (rw found (rw e (player2, o, p, rw e refl, refl, first, second, refl, refl))))
      ]

  ready-Waits :
      (user : ℕ) (room : Room) (w : World S Q M J O)
      → RoomsOk env w.rooms
      → model.find_one (is_joined user) w.rooms ≡ some room
      → other_ready user room ≡ false
      → Waits user room w (ready env user w)
  unfolding ready
  ready-Waits user room w h f o =
      let joined = joined_found user room w f in
      let pair : IsPair room = All-find_one model IsPair (is_joined user) w.rooms h.pairs f in
      let one : both_ready (with_ready user room room) ≡ false =
        both_ready-other user room pair joined ∙ o in
      rw f (rw (joined, one) (o, refl, updated_found user room w.rooms h.keyed f, refl))

  -- A room in which the other player is ready has a second player.
  second_player :
      (user : ℕ) (room : Room)
      → IsPair room
      → is_joined user room ≡ true
      → other_ready user room ≡ true
      → (player2 : ℕ) × (room.player2 ≡ some player2)
  second_player user room h j o = elim (Option-cases room.player2) [
    | inl n ↦ absurd (ground (arith, h.1, n, o, j))
    | inr found ↦ found
  ]

  -- When no two rooms share an id, a user is in one room at most, a room's two players differ and
  -- nobody is ready in the place of an absent second player, `ready` has three outcomes. A user in
  -- no room is refused with nothing changed. If the other player of the room is not ready, `ready`
  -- answers true, sets the flag of the user in the stored room, and changes nothing else. If the
  -- other player is ready, `createMatch` of the two players has run on the match service, and
  -- `ready` answers true, or with the exception that `createMatch` has thrown; in either case
  -- neither player is in a room any more, the timeout of the room is taken off the queue, and the
  -- message that all are ready is published.
  pub ready-ReadyOutcome :
      (user : ℕ) (w : World S Q M J O)
      → RoomsOk env w.rooms
      → ReadyOutcome user w (ready env user w)
  unfolding ready
  ready-ReadyOutcome user w h = elim (Option-cases (model.find_one (is_joined user) w.rooms)) [
    | inl n ↦ rw n (inl (refl, refl))
    | inr (room, f) ↦
        let pair : IsPair room = All-find_one model IsPair (is_joined user) w.rooms h.pairs f in
        elim (Bool-cases (other_ready user room)) [
          | inl o ↦
              let (player2, p) = second_player user room pair (joined_found user room w f) o in
              inr (room, f, inr (ready-Starts user player2 room w h f p o))
          | inr o ↦ inr (room, f, inl (ready-Waits user room w h f o))
        ]
  ]
