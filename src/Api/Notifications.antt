-- ===== src/Api/Notifications.antt =====
-- src/module/notification/notification.resolver.ts behind the guard, over the store of
-- src/module/notification/notification.service.ts. The dates of a notification are not modelled.
pub mod Unread
use zombiies_api.Common.{
  ℕ, Bool, true, false, not, some, List, [], ◌∷◌, Result, ok, err, Error, forbidden, throw_if,
  Action, lift,
}
use zombiies_api.Common.Async.{◌>>=◌, ◌>>◌}
use zombiies_api.User.Model.{User, UserRole}
use zombiies_api.User.Model as Users
use zombiies_api.Auction.Model.{Notification, hohoho}
use zombiies_api.Auction.Service.{AuctionAction, push}
use zombiies_api.Auction.Env.{AuctionEnv, World}
use zombiies_api.Notification
use zombiies_api.Api.{guarded}

-- `user.role === 'ADMIN'`.
abbrev pub has_admin_role : UserRole → Bool
has_admin_role Users.user = false
has_admin_role Users.admin = true

module _ {S N Q C : Type 0} (env : AuctionEnv S N Q C) where
  open env use {notification_model}

  -- A method of the notification service on the store of the notifications.
  abbrev pub in_notifications : {A : Type 0} → Action N A → AuctionAction env A
  in_notifications m w = let (r, n) = m w.notifications in (r, record w { notifications = n })

  abbrev pub owned_notifications : Result User → AuctionAction env (List Notification)
  owned_notifications current_user =
      guarded current_user
        (λ user. in_notifications (Notification.owned_notifications notification_model user.id))

  unfoldable pub push_notification : Result User → AuctionAction env (Unit {0})
  unfolding push
  push_notification current_user = guarded current_user (λ user. do
    lift (throw_if (not (has_admin_role user.role)) (forbidden "Forbidden"))
    push env (some user.id) hohoho)

  unfoldable pub mark_all_notifications_as_read : Result User → AuctionAction env Bool
  unfolding Notification.mark_all_as_read
  mark_all_notifications_as_read current_user =
      guarded current_user
        (λ user. in_notifications (Notification.mark_all_as_read notification_model user.id))
