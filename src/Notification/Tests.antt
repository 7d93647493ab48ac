-- ===== src/Notification/Tests.antt =====
-- Notifications in memory: two of one user, one of another.
use zombiies_api.Common.{ℕ, Bool, true, false, List, [], ◌∷◌}
use zombiies_api.Auction.Model.{Notification, ended_with_no_bid}

abbrev note : ℕ → ℕ → Bool → Notification
note id owner is_read = record {
  id = id;
  owner = owner;
  content = ended_with_no_bid 3;
  is_read = is_read;
}

abbrev pub notes : List Notification
notes = note 1 5 false ∷ note 2 6 false ∷ note 3 5 true ∷ []
