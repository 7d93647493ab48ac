-- ===== src/Api/Subscriptions.antt =====
-- The filters of the subscriptions of src/module/match/match.resolver.ts,
-- src/module/room/room.resolver.ts and src/module/notification/notification.resolver.ts: whether
-- the user of a subscription, if there is one, gets a message. A filter that reads a field of
-- `null` throws.
use zombiies_api.Common.{
  ℕ, ◌≡◌, ◌↔◌, ◌⊎◌, inl, inr, Bool, true, false, ◌||◌, Option, none, some, [], ◌∷◌, ◌==◌, any,
  Result, ok, err, type_error, arith, ok-injective, ap, if◌then◌else◌,
}
use zombiies_api.Match.Model.{
  Match, PlayerStatusModel, MatchEvent, match_started, match_ended, reward_received,
  prepare_turn_event, confirm_turn_event, end_turn_event,
}
use zombiies_api.Room.Model.{Room, RoomEvent, wait_ready, all_ready, ready_timeout}
use zombiies_api.Auction.Model.{Notification}

-- `id === getUserFromContext(context)?._id?.toString()` of an id that is there.
abbrev pub is_user : Option ℕ → ℕ → Bool
is_user none id = false
is_user (some user) id = id == user

-- The same of an id that may be `undefined`, which equals a user that is `undefined`.
abbrev pub is_maybe_user : Option ℕ → Option ℕ → Bool
is_maybe_user none none = true
is_maybe_user (some user) none = false
is_maybe_user user (some id) = is_user user id

abbrev pub match_filter : Option ℕ → Option Match → Result Bool
match_filter user none = err type_error
match_filter user (some m) = ok (any (λ s. is_user user s.player_id) m.player_statuses)

-- Each subscription of the match resolver, with its filter.
abbrev pub gets_match_event : Option ℕ → MatchEvent → Result Bool
gets_match_event user (match_started m) = match_filter user m
gets_match_event user (match_ended m) = match_filter user m
gets_match_event user (reward_received player token) = ok (is_user user player)
gets_match_event user (prepare_turn_event type player card position m) = match_filter user m
gets_match_event user (confirm_turn_event player attacks m) = match_filter user m
gets_match_event user (end_turn_event player m) = match_filter user m

abbrev pub room_filter : Option ℕ → Option Room → Result Bool
room_filter user none = err type_error
room_filter user (some r) = ok (is_user user r.player1 || is_maybe_user user r.player2)

abbrev pub gets_room_event : Option ℕ → RoomEvent → Result Bool
gets_room_event user (wait_ready r) = room_filter user r
gets_room_event user (all_ready r) = room_filter user r
gets_room_event user (ready_timeout r) = room_filter user r

abbrev pub gets_notification : Option ℕ → Notification → Bool
gets_notification user n = is_user user n.owner

either :
    (x y u : ℕ)
    → ((if x == u then true else (if y == u then true else false)) ≡ true) ↔ ((u ≡ x) ⊎ (u ≡ y))
either x y u = ground arith

-- The messages of a match of two players reach these two and nobody else.
match_filter-players :
    (user : Option ℕ) (m : Match) (a b : PlayerStatusModel)
    → m.player_statuses ≡ a ∷ b ∷ []
    → (match_filter user (some m) ≡ ok true)
      ↔ ((user ≡ some a.player_id) ⊎ (user ≡ some b.player_id))
match_filter-players none m a b e = rw e ((λ h. cc), λ h. elim h [ inl p ↦ cc | inr p ↦ cc ])
match_filter-players (some u) m a b e =
    let both = either a.player_id b.player_id u in
    rw e (
      (λ h. elim (both.0 (ok-injective h)) [ inl p ↦ inl (ap some p) | inr p ↦ inr (ap some p) ]),
      λ h. ap ok (both.1 (elim h [ inl p ↦ inl cc | inr p ↦ inr cc ])),
    )
