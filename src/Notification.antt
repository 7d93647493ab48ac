-- ===== src/Notification.antt =====
-- src/module/notification/notification.service.ts: the notifications of a user, read and unread.
pub mod Tests
use zombiies_api.Common.{
  ℕ, ◌+◌, ◌≡◌, refl, Bool, true, false, not, ◌&&◌, none, List, [], ◌∷◌, map, filter, ◌==◌,
  if◌then◌else◌, arith, ok, Action, lift, gets, modify, Collection, length, Bool-cases, inl, inr,
  ap, ◌∙◌,
}
use zombiies_api.Common.Async.{◌>>=◌, ◌>>◌}
use zombiies_api.Common.Keys.{count}
use zombiies_api.Auction.Model.{Notification}

abbrev pub is_owned : ℕ → Notification → Bool
is_owned user n = n.owner == user

-- The filter of `markAllAsRead`.
abbrev pub is_unread : ℕ → Notification → Bool
is_unread user n = is_owned user n && not n.is_read

abbrev pub read : Notification → Notification
read n = record n { is_read = true }

module _ {S : Type 0} (model : Collection S Notification) where
  unfoldable pub owned_notifications : ℕ → Action S (List Notification)
  owned_notifications user = gets (model.find_many (is_owned user))

  unfoldable pub mark_all_as_read : ℕ → Action S Bool
  mark_all_as_read user = do modify (model.update_many (is_unread user) read); lift (ok true)

  pub count_unread-mark :
      (u user : ℕ) (ns : List Notification)
      → count (is_unread u) (map (λ n. if is_unread user n then read n else n) ns)
        ≡ (if u == user then 0 else count (is_unread u) ns)
  count_unread-mark u user [] = ground arith
  count_unread-mark u user (n ∷ ns) = ground (arith, count_unread-mark u user ns)

  pub owned-mark :
      (user : ℕ) (ns : List Notification)
      → filter (is_owned user) (map (λ n. if is_unread user n then read n else n) ns)
        ≡ map read (filter (is_owned user) ns)
  owned-mark user [] = refl
  owned-mark user (n ∷ ns) = elim (Bool-cases (n.owner == user)) [
    | inr other ↦ rw other (rw other (owned-mark user ns))
    | inl own ↦ elim (Bool-cases n.is_read) [
      | inl seen ↦ rw (own, seen) (rw own (ap (λ x. read n ∷ x) (owned-mark user ns)))
      | inr new ↦ rw (own, new) (rw own (ap (λ x. read n ∷ x) (owned-mark user ns)))
    ]
  ]

  -- After `markAllAsRead` the user has no unread notification, every other user has as many as
  -- before, and the user's notifications are the same ones, each of them read.
  mark_all_as_read_lem :
      (user : ℕ) (s : S)
      → let s' = (mark_all_as_read user s).1 in
        ((u : ℕ)
          → count (is_unread u) (model.docs s')
            ≡ (if u == user then 0 else count (is_unread u) (model.docs s)))
        × ((owned_notifications user s').0 ≡ ok (map read (filter (is_owned user) (model.docs s))))
  unfolding mark_all_as_read owned_notifications
  mark_all_as_read_lem user s = (
    (λ u. rw model.update_many_lem (count_unread-mark u user (model.docs s))),
    ap ok (
        model.find_many_lem (is_owned user) _
        ∙ ap (filter (is_owned user)) (model.update_many_lem (is_unread user) read s)
        ∙ owned-mark user (model.docs s)),
  )
