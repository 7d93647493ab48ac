-- ===== src/Api/Notifications/Unread.antt =====
-- How many unread notifications the users have after requests to
-- src/module/notification/notification.resolver.ts.
use zombiies_api.Common.{
  ℕ, ◌+◌, ◌≡◌, refl, ap, ◌∙◌, inl, inr, Bool, true, false, not, ◌&&◌, List, [], ◌∷◌, ◌==◌,
  if◌then◌else◌, Result, ok, err, arith, Bool-cases,
}
use zombiies_api.Common.Keys.{count, one_if, count-append_one}
use zombiies_api.User.Model.{User}
use zombiies_api.Auction.Model.{Notification, hohoho}
use zombiies_api.Auction.Service.{push}
use zombiies_api.Auction.Env.{AuctionEnv, World}
use zombiies_api.Notification.{
  owned_notifications as list_owned, is_unread, read, mark_all_as_read, count_unread-mark,
}
use zombiies_api.Api.Notifications.{
  has_admin_role, push_notification, mark_all_notifications_as_read, owned_notifications,
}

-- A request, with the user that the guard finds.
pub data Request : Type 0 where
  pushes marks lists : Result User → Request

-- What a request makes of the number of unread notifications of a user.
abbrev pub unread_after : ℕ → Request → ℕ → ℕ
unread_after u (pushes (err x)) k = k
unread_after u (pushes (ok user)) k =
    if has_admin_role user.role && (user.id == u) then k + 1 else k
unread_after u (marks (err x)) k = k
unread_after u (marks (ok user)) k = if u == user.id then 0 else k
unread_after u (lists current_user) k = k

abbrev pub all_unread_after : ℕ → List Request → ℕ → ℕ
all_unread_after u [] k = k
all_unread_after u (r ∷ rs) k = all_unread_after u rs (unread_after u r k)

one_more : (b : Bool) (k : ℕ) → k + one_if (b && not false) ≡ (if b then k + 1 else k)
one_more true k = refl
one_more false k = omega arith

module _ {S N Q C : Type 0} (env : AuctionEnv S N Q C) where
  open env use {notification_model}

  unfoldable pub serve : Request → World S N Q C → World S N Q C
  unfolding push_notification mark_all_notifications_as_read
  serve (pushes user) w = (push_notification env user w).1
  serve (marks user) w = (mark_all_notifications_as_read env user w).1
  serve (lists user) w = (owned_notifications env user w).1

  unfoldable pub serve_all : List Request → World S N Q C → World S N Q C
  unfolding serve
  serve_all [] w = w
  serve_all (r ∷ rs) w = serve_all rs (serve r w)

  abbrev pub unread : ℕ → World S N Q C → ℕ
  unread u w = count (is_unread u) (notification_model.docs w.notifications)

  unread-serve :
      (u : ℕ) (r : Request) (w : World S N Q C)
      → unread u (serve r w) ≡ unread_after u r (unread u w)
  unfolding serve list_owned push_notification mark_all_notifications_as_read mark_all_as_read push
  unread-serve u (pushes (err x)) w = refl
  unread-serve u (pushes (ok user)) w =
      let ns = notification_model.docs w.notifications in
      let n : ℕ → Notification =
        λ i. record { id = i; owner = user.id; content = hohoho; is_read = false } in
      elim (Bool-cases (has_admin_role user.role)) [
        | inr other ↦ rw other (rw (other, serve) refl)
        | inl admin ↦
            let added =
              ap (count (is_unread u)) (notification_model.create_lem n w.notifications)
              ∙ count-append_one (is_unread u) ns (n (notification_model.new_id w.notifications)) in
            rw admin (rw (admin, serve) (added ∙ one_more (user.id == u) (unread u w)))
      ]
  unread-serve u (marks (err x)) w = refl
  unread-serve u (marks (ok user)) w =
      ap (count (is_unread u))
        (notification_model.update_many_lem (is_unread user.id) read w.notifications)
      ∙ count_unread-mark notification_model u user.id (notification_model.docs w.notifications)
  unread-serve u (lists (err x)) w = refl
  unread-serve u (lists (ok user)) w = refl

  -- After any requests, with or without a user, a user has as many unread notifications as the
  -- history says: a push adds one to the administrator who asks, and nothing for others; marking
  -- sets the number of the user who asks to 0; listing changes no number.
  pub serve_all-unread :
      (u : ℕ) (rs : List Request) (w : World S N Q C)
      → unread u (serve_all rs w) ≡ all_unread_after u rs (unread u w)
  unfolding serve_all
  serve_all-unread u [] w = refl
  serve_all-unread u (r ∷ rs) w =
      serve_all-unread u rs (serve r w) ∙ ap (all_unread_after u rs) (unread-serve u r w)
