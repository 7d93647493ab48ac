-- ===== src/Filter/Starts.antt =====
-- Where a text starts with another one, for the proofs on src/filter.
use zombiies_api.Common.{
  ℕ, suc, ◌≤◌, ◌≡◌, ◌≢◌, refl, true, false, [], ◌∷◌, ◌++◌, ==_refl, length, arith,
}
use zombiies_api.Filter.Texts.{Text, starts_with, Lacks}

pub starts_with_self : (p r : Text) → starts_with p (p ++ r) ≡ true
starts_with_self [] r = refl
starts_with_self (c ∷ p) r = ground (arith, ==_refl c, starts_with_self p r)

-- A text that lacks a separator's last character long enough does not start with it.
pub no_start_last :
    (ps xs ys : Text) (y : ℕ)
    → Lacks y xs
    → suc (length ps) ≤ length xs
    → starts_with (ps ++ y ∷ []) (xs ++ ys) ≡ false
no_start_last ps [] ys y h l = absurd (omega arith)
no_start_last [] (x ∷ xs) ys y h l = ground (arith, h.0)
no_start_last (p ∷ ps) (x ∷ xs) ys y h l =
    ground (arith, no_start_last ps xs ys y h.1 (omega arith))

-- Nor does one that has a character early on which comes later in the separator, if at all.
pub no_start_early :
    (ps tl xs t : Text) (y z : ℕ)
    → Lacks y xs
    → Lacks z ps
    → y ≢ z
    → starts_with (ps ++ y ∷ tl) (xs ++ z ∷ t) ≡ false
no_start_early [] tl [] t y z h k ne = ground (arith, ne)
no_start_early [] tl (x ∷ xs) t y z h k ne = ground (arith, h.0)
no_start_early (p ∷ ps) tl [] t y z h k ne = ground (arith, k.0)
no_start_early (p ∷ ps) tl (x ∷ xs) t y z h k ne =
    ground (arith, no_start_early ps tl xs t y z h.1 k.1 ne)

pub no_start-Lacks : (ps tl xs : Text) (y : ℕ) → Lacks y xs → starts_with (ps ++ y ∷ tl) xs ≡ false
no_start-Lacks [] tl [] y h = refl
no_start-Lacks [] tl (x ∷ xs) y h = ground (arith, h.0)
no_start-Lacks (p ∷ ps) tl [] y h = refl
no_start-Lacks (p ∷ ps) tl (x ∷ xs) y h = ground (arith, no_start-Lacks ps tl xs y h.1)
