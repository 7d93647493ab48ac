-- ===== src/Card/Receipt/Tests.antt =====
-- A receipt with a mint, another event, and a transfer to another address.
use zombiies_api.Common.{ℕ, Bool, true, false, none, some, List, [], ◌∷◌, ◌==◌}
use zombiies_api.Card.Receipt.{Event}

abbrev to_seven : ℕ → ℕ → Bool
to_seven from to = to == 7

abbrev events : List Event
events =
    record { is_transfer = true; args = some (record { from = 0; to = 7; token_id = 30 }) }
    ∷ record { is_transfer = false; args = none }
    ∷ record { is_transfer = true; args = some (record { from = 7; to = 8; token_id = 31 }) }
    ∷ []
