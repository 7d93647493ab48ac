-- ===== src/Room/Service/Pairs.antt =====
-- What every write of src/module/room/room.service.ts to the collection of rooms keeps.
use zombiies_api.Common.{
  ℕ, ◌+◌, ◌≤◌, ◌≡◌, refl, sym, ◌∙◌, inl, inr, Bool, true, false, not, ◌&&◌, none, some, All,
  All-find_one, All-create, All-delete, find_holds, ◌==◌, Bool-cases, arith, update_one, IsKeyed,
}
use zombiies_api.Common.Keys.{
  count, one_if, none_found-All, none_filtered, count-filter, count-append_one, IsKeyed-update,
  IsKeyed-delete, IsKeyed-create, All-update_found, count-update_found,
}
use zombiies_api.Room.Model.{Room}
use zombiies_api.Room.Service.{
  RoomEnv, is_second, is_joined, is_waiting, truthy, with_ready, new_room,
}

-- Two different players, and nobody ready in the place of a second player who is not there.
abbrev pub IsPair : Room → Type 0
IsPair r = (is_second r.player1 r ≡ false) × ((truthy r.player2_ready && is_waiting r) ≡ false)

module _ {S Q M J O : Type 0} (env : RoomEnv S Q M J O) where
  open env use {model}

  -- No two rooms share an id, every room is a pair, and a user is in one room at most.
  pub record RoomsOk (s : S) : Type 0 where
    pub keyed : IsKeyed model s
    pub pairs : All IsPair (model.docs s)
    pub single : (user : ℕ) → count (is_joined user) (model.docs s) ≤ 1

  pub created-RoomsOk :
      (user : ℕ) (s : S)
      → RoomsOk s
      → model.find_one (is_joined user) s ≡ none
      → RoomsOk (model.create (new_room env user) s)
  created-RoomsOk user s h n =
      let nothing =
        none_filtered (is_joined user) (model.docs s)
          (sym (model.find_one_lem (is_joined user) s) ∙ n) in
      record {
        keyed = IsKeyed-create model (new_room env user) s (λ i. env.id_lem _) h.keyed;
        pairs = All-create model IsPair (new_room env user) s h.pairs (refl, refl);
        single = λ u.
            rw (model.create_lem, count-append_one (is_joined u))
              (elim (Bool-cases (u == user)) [
                | inl same ↦
                    let eq : u ≡ user = ground (arith, same) in rw (eq, nothing) (ground arith)
                | inr other ↦ ground (arith, other, h.single u)
              ]);
      }

  pub deleted-RoomsOk : (q : Room → Bool) (s : S) → RoomsOk s → RoomsOk (model.delete_many q s)
  deleted-RoomsOk q s h = record {
    keyed = IsKeyed-delete model q s h.keyed;
    pairs = All-delete model IsPair q s h.pairs;
    single = λ u.
        rw model.delete_many_lem
          (omega (arith, h.single u, count-filter (is_joined u) (λ d. not (q d)) (model.docs s)));
  }

  -- An update of the room that a query found, by its id.
  updated-RoomsOk :
      (q : Room → Bool) (f : Room → Room) (s : S) (room : Room)
      → RoomsOk s
      → model.find_one q s ≡ some room
      → ((r : Room) → (f r).id ≡ r.id)
      → IsPair (f room)
      → ((user : ℕ)
          → count (is_joined user) (model.docs s) + one_if (is_joined user (f room))
            ≤ 1 + one_if (is_joined user room))
      → RoomsOk (update_one model room.id f s)
  updated-RoomsOk q f s room h e k p c =
      let written : RoomsOk (update_one model (model.id room) f s) = record {
        keyed =
            IsKeyed-update model (λ d. model.id d == model.id room) f s
              (λ d. env.id_lem (f d) ∙ k d ∙ sym (env.id_lem d)) h.keyed;
        pairs = All-update_found model IsPair q f s h.keyed e p h.pairs;
        single = λ u. omega (arith, c u, count-update_found model (is_joined u) q f s h.keyed e);
      } in
      rw (env.id_lem room) at written

  found_holds :
      (q : Room → Bool) (s : S) (room : Room) → model.find_one q s ≡ some room → q room ≡ true
  found_holds q s room e = find_holds q (model.docs s) (sym (model.find_one_lem q s) ∙ e)

  pub joined-RoomsOk :
      (user job : ℕ) (s : S) (room : Room)
      → RoomsOk s
      → model.find_one (is_joined user) s ≡ none
      → model.find_one is_waiting s ≡ some room
      → RoomsOk (
          update_one model room.id
            (λ r. record r { player2 = some user; timeout_job_id = some job })
            s)
  joined-RoomsOk user job s room h n e =
      let listed = sym (model.find_one_lem (is_joined user) s) ∙ n in
      let nothing = none_filtered (is_joined user) (model.docs s) listed in
      let outside : is_joined user room ≡ false =
        All-find_one model (λ r. is_joined user r ≡ false) is_waiting s
          (none_found-All (is_joined user) (model.docs s) listed) e in
      let waiting = found_holds is_waiting s room e in
      updated-RoomsOk is_waiting _ s room h e (λ r. refl) (ground (arith, outside), ground arith)
        (λ u. elim (Bool-cases (u == user)) [
          | inl same ↦ let eq : u ≡ user = ground (arith, same) in rw (eq, nothing) (ground arith)
          | inr other ↦ ground (arith, other, waiting, h.single u)
        ])

  pub ready-RoomsOk :
      (user : ℕ) (s : S) (room : Room)
      → RoomsOk s
      → model.find_one (is_joined user) s ≡ some room
      → RoomsOk (update_one model room.id (with_ready user room) s)
  ready-RoomsOk user s room h e =
      let pair : IsPair room = All-find_one model IsPair (is_joined user) s h.pairs e in
      updated-RoomsOk (is_joined user) (with_ready user room) s room h e (λ r. refl)
        (pair.0, ground (arith, pair.1, found_holds (is_joined user) s room e))
        (λ u. omega (arith, h.single u))
