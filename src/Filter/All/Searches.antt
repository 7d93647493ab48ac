-- ===== src/Filter/All/Searches.antt =====
-- What the patterns of src/filter/all-exception.filter.ts find.
use zombiies_api.Common.{
  ℕ, ◌≡◌, ◌≢◌, refl, ap, ◌∙◌, inl, inr, false, none, some, [], ◌∷◌, ◌++◌, ◌==◌, ==_refl, All,
  Bool-cases, arith,
}
use zombiies_api.Filter.Texts.{Text, starts_with, Lacks}
use zombiies_api.Filter.Starts.{starts_with_self}
use zombiies_api.Filter.All.{
  is_line_end, Pattern, after, any_before, prepend, capture_before, match_first,
}

after-found : (ps s : Text) (k : Pattern) → after ps k (ps ++ s) ≡ k s
unfolding after
after-found [] s k = refl
after-found (p ∷ ps) s k = rw (==_refl p) (after-found ps s k)

pub after-other : (ps s : Text) (k : Pattern) → starts_with ps s ≡ false → after ps k s ≡ none
unfolding after
after-other [] s k h = cc
after-other (p ∷ ps) [] k h = refl
after-other (p ∷ ps) (c ∷ s) k h = elim (Bool-cases (p == c)) [
  | inl e ↦ rw e (after-other ps s k (rw e at h))
  | inr e ↦ rw e refl
]

match_first-here : (k : Pattern) (s : Text) {t : Text} → k s ≡ some t → match_first k s ≡ some t
unfolding match_first
match_first-here k [] e = e
match_first-here k (c ∷ s) e = rw (e, match_first) refl

match_first-later :
    (k : Pattern) (c : ℕ) (s : Text) → k (c ∷ s) ≡ none → match_first k (c ∷ s) ≡ match_first k s
unfolding match_first
match_first-later k c s e = rw (e, match_first) refl

-- A pattern of texts that lack a character.
pub match_first-Lacks :
    (k : Pattern) (y : ℕ) (s : Text)
    → Lacks y s
    → ((t : Text) → Lacks y t → k t ≡ none)
    → match_first k s ≡ none
unfolding match_first
match_first-Lacks k y [] h none_of = none_of [] h
match_first-Lacks k y (c ∷ s) h none_of =
    match_first-later k c s (none_of (c ∷ s) h) ∙ match_first-Lacks k y s h.1 none_of

pub after-Lacks :
    (ps : Text) (k : Pattern) (y : ℕ) (s : Text)
    → Lacks y s
    → ((t : Text) → Lacks y t → k t ≡ none)
    → after ps k s ≡ none
unfolding after
after-Lacks [] k y s h none_of = none_of s h
after-Lacks (p ∷ ps) k y [] h none_of = refl
after-Lacks (p ∷ ps) k y (c ∷ s) h none_of = elim (Bool-cases (p == c)) [
  | inl e ↦ rw e (after-Lacks ps k y s h.1 none_of)
  | inr e ↦ rw e refl
]

-- A literal does not start within `pre` in `pre ++ s`.
abbrev pub NotWithin : Text → Text → Text → Type 0
NotWithin ps [] s = Unit {0}
NotWithin ps (c ∷ pre) s = (starts_with ps (c ∷ pre ++ s) ≡ false) × NotWithin ps pre s

match_first-prefix :
    (ps pre s : Text) (k : Pattern)
    → NotWithin ps pre s
    → match_first (after ps k) (pre ++ s) ≡ match_first (after ps k) s
match_first-prefix ps [] s k h = refl
match_first-prefix ps (c ∷ pre) s k h =
    match_first-later (after ps k) c (pre ++ s) (after-other ps (c ∷ pre ++ s) k h.0)
    ∙ match_first-prefix ps pre s k h.1

pub match_first-found :
    (ps pre s : Text) (k : Pattern) {t : Text}
    → NotWithin ps pre (ps ++ s)
    → k s ≡ some t
    → match_first (after ps k) (pre ++ (ps ++ s)) ≡ some t
match_first-found ps pre s k n e =
    match_first-prefix ps pre (ps ++ s) k n
    ∙ match_first-here (after ps k) (ps ++ s) (after-found ps s k ∙ e)

-- Characters that `.` matches, and that are not `y`.
abbrev pub Plain : ℕ → Text → Type 0
Plain y = All (λ c. (is_line_end c ≡ false) × (c ≢ y))

other_character : (y d : ℕ) → d ≢ y → (y == d) ≡ false
other_character y d h = ground (arith, h)

pub any_before-found :
    (y c : ℕ) (mid s : Text) (k : Pattern) {t : Text}
    → Plain y (c ∷ mid)
    → k s ≡ some t
    → any_before (after (y ∷ []) k) (c ∷ mid ++ y ∷ s) ≡ some t
unfolding any_before after
any_before-found y c [] s k h e = rw (h.0.0, ==_refl y) (rw e refl)
any_before-found y c (d ∷ mid) s k h e =
    rw (h.0.0, other_character y d h.1.0.1) (any_before-found y d mid s k h.1 e)

pub capture_before-found :
    (y c : ℕ) (st reason s : Text)
    → Plain y (c ∷ reason)
    → capture_before (y ∷ st) (c ∷ reason ++ (y ∷ st ++ s)) ≡ some (c ∷ reason)
unfolding capture_before
capture_before-found y c st [] s h = rw (h.0.0, ==_refl y, starts_with_self st s) refl
capture_before-found y c st (d ∷ reason) s h =
    rw (h.0.0, other_character y d h.1.0.1)
      (ap (prepend c) (capture_before-found y d st reason s h.1))
