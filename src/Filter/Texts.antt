-- ===== src/Filter/Texts.antt =====
-- The methods of JavaScript's texts that the filters use: `split` and `trim`.
use Prim.Native.Char.{code}
use Prim.Native.String.{String}
use zombiies_api.Common.{
  ℕ, zero, suc, ◌-◌, ◌≢◌, Bool, true, false, ◌&&◌, ◌||◌, List, [], ◌∷◌, ◌==◌, leb, if◌then◌else◌,
  length, All,
}

abbrev pub Text : Type 0
Text = List ℕ

abbrev pub codes : String → Text
codes String.[] = []
codes (String.◌∷◌ c s) = code c ∷ codes s

abbrev pub starts_with : Text → Text → Bool
starts_with [] s = true
starts_with (p ∷ ps) [] = false
starts_with (p ∷ ps) (c ∷ s) = (p == c) && starts_with ps s

abbrev pub cons_head : ℕ → List Text → List Text
cons_head c [] = (c ∷ []) ∷ []
cons_head c (t ∷ ts) = (c ∷ t) ∷ ts

-- The parts of a text; the number counts the characters of a separator that are still to skip.
unfoldable pub cut : Text → Text → ℕ → List Text
cut separator [] skip = [] ∷ []
cut separator (c ∷ s) (suc skip) = cut separator s skip
cut separator (c ∷ s) zero = elim (starts_with separator (c ∷ s)) [
  | true ↦ [] ∷ cut separator s (length separator - 1)
  | false ↦ cons_head c (cut separator s 0)
]

-- `text.split(separator)`, for a separator that is not empty.
unfoldable pub split : Text → Text → List Text
unfolding cut
split separator text = cut separator text 0

-- White space and line ends, as `trim` has them.
abbrev pub is_space : ℕ → Bool
is_space c =
    (leb 9 c && leb c 13)
    || (c == 32)
    || (c == 160)
    || (c == 5760)
    || (leb 8192 c && leb c 8202)
    || (c == 8232)
    || (c == 8233)
    || (c == 8239)
    || (c == 8287)
    || (c == 12288)
    || (c == 65279)

abbrev pub trim_start : Text → Text
trim_start [] = []
trim_start (c ∷ s) = let rest = trim_start s in if is_space c then rest else c ∷ s

abbrev pub trim_end : Text → Text
trim_end [] = []
trim_end (c ∷ s) = elim (trim_end s) [
  | [] ↦ if is_space c then [] else c ∷ []
  | x ∷ xs ↦ c ∷ x ∷ xs
]

unfoldable pub trim : Text → Text
trim s = trim_end (trim_start s)

abbrev pub Lacks : ℕ → Text → Type 0
Lacks c = All (λ d. d ≢ c)
