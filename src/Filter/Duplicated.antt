-- ===== src/Filter/Duplicated.antt =====
-- How `parseDuplicatedField` of src/common/util/mongo-error.util.ts reads the messages of MongoDB.
use mathlib.Core.List.{append_assoc}
use zombiies_api.Common.{
  ℕ, zero, suc, ◌-◌, ◌≤◌, ◌≡◌, ◌≢◌, refl, sym, ap, ◌∙◌, inl, inr, false, Option, none, some, List,
  [], ◌∷◌, ◌++◌, length, length-append, All, All-append, Bool-cases, arith,
}
use zombiies_api.Filter.Texts.{
  Text, codes, starts_with, cons_head, cut, split, is_space, trim_start, trim_end, trim, Lacks,
}
use zombiies_api.Filter.Starts.{starts_with_self, no_start_last, no_start_early, no_start-Lacks}
use zombiies_api.Filter.{
  parse_duplicated_field, field_in, dup_key, first_or, Answer, text_of, mongo_catch,
  user_input_error,
}

cut-skip : (sep xs r : Text) → cut sep (xs ++ r) (length xs) ≡ cut sep r 0
unfolding cut
cut-skip sep [] r = refl
cut-skip sep (x ∷ xs) r = cut-skip sep xs r

-- A character at which no separator starts.
cut-other :
    (sep s : Text) (c : ℕ)
    → starts_with sep (c ∷ s) ≡ false
    → cut sep (c ∷ s) 0 ≡ cons_head c (cut sep s 0)
unfolding cut
cut-other sep s c e = rw (e, cut) refl

cut-found : (p : ℕ) (ps r : Text) → cut (p ∷ ps) (p ∷ ps ++ r) 0 ≡ [] ∷ cut (p ∷ ps) r 0
unfolding cut
cut-found p ps r =
    rw (starts_with_self (p ∷ ps) r, cut)
      (ap (λ ts. [] ∷ ts)
        (let same : suc (length ps) - 1 ≡ length ps = omega arith in
          ap (cut (p ∷ ps) (ps ++ r)) same ∙ cut-skip (p ∷ ps) ps r))

cut-separator :
    (ps r : Text) (y : ℕ) → cut (ps ++ y ∷ []) ((ps ++ y ∷ []) ++ r) 0 ≡ [] ∷ cut (ps ++ y ∷ []) r 0
cut-separator [] r y = cut-found y [] r
cut-separator (p ∷ ps) r y = cut-found p (ps ++ y ∷ []) r

-- A text is cut at the first separator, before which its last character does not occur.
cut-prefix :
    (ps pre r : Text) (y : ℕ)
    → Lacks y ps
    → Lacks y pre
    → cut (ps ++ y ∷ []) (pre ++ (ps ++ y ∷ []) ++ r) 0 ≡ pre ∷ cut (ps ++ y ∷ []) r 0
cut-prefix ps [] r y h k = cut-separator ps r y
cut-prefix ps (c ∷ pre) r y h k =
    let sep = ps ++ y ∷ [] in
    let regroup : c ∷ (pre ++ sep ++ r) ≡ (c ∷ pre ++ ps) ++ y ∷ r =
      ap (λ s. c ∷ s)
        (ap (λ s. s ++ r) (sym (append_assoc pre ps (y ∷ [])))
          ∙ append_assoc (pre ++ ps) (y ∷ []) r) in
    let lacks : Lacks y (c ∷ pre ++ ps) = (k.0, All-append _ pre ps k.1 h) in
    let long : suc (length ps) ≤ length (c ∷ pre ++ ps) = omega (arith, length-append pre ps) in
    let none_here : starts_with sep (c ∷ (pre ++ sep ++ r)) ≡ false =
      ap (starts_with sep) regroup ∙ no_start_last ps (c ∷ pre ++ ps) (y ∷ r) y lacks long in
    cut-other sep (pre ++ sep ++ r) c none_here ∙ ap (cons_head c) (cut-prefix ps pre r y h k.1)

cut-parts : (sep s : Text) (n : ℕ) → (t : Text) × (ts : List Text) × (cut sep s n ≡ t ∷ ts)
unfolding cut
cut-parts sep [] n = ([], [], refl)
cut-parts sep (c ∷ s) (suc n) = cut-parts sep s n
cut-parts sep (c ∷ s) zero = elim (Bool-cases (starts_with sep (c ∷ s))) [
  | inl e ↦ ([], cut sep s (length sep - 1), rw (e, cut) refl)
  | inr e ↦ let (t, ts, p) = cut-parts sep s 0 in (c ∷ t, ts, rw (e, cut) (rw p refl))
]

-- White space, which begins no name, before a name without white space and a colon.
abbrev pub IsNameChar : ℕ → Type 0
IsNameChar c = (is_space c ≡ false) × (c ≢ b':')

names_lack_space : (name : Text) → All IsNameChar name → Lacks b' ' name
names_lack_space [] h = tt
names_lack_space (c ∷ name) h = (ground (arith, h.0.0), names_lack_space name h.1)

cut-names :
    (name rest t : Text) (ts : List Text)
    → All IsNameChar name
    → cut dup_key rest 0 ≡ t ∷ ts
    → cut dup_key (name ++ b':' ∷ rest) 0 ≡ (name ++ b':' ∷ t) ∷ ts
cut-names [] rest t ts h e = cut-other dup_key rest b':' refl ∙ ap (cons_head b':') e
cut-names (c ∷ name) rest t ts h e =
    cut-other dup_key (name ++ b':' ∷ rest) c (
      no_start_early (codes "dup") (codes "key: {") (c ∷ name) rest b' ' b':'
        (names_lack_space (c ∷ name) h) (omega arith) (omega arith))
    ∙ ap (cons_head c) (cut-names name rest t ts h.1 e)

cut-spaces :
    (spaces s t : Text) (ts : List Text)
    → All (λ c. c ≡ b' ') spaces
    → cut dup_key s 0 ≡ t ∷ ts
    → cut dup_key (spaces ++ s) 0 ≡ (spaces ++ t) ∷ ts
cut-spaces [] s t ts h e = e
cut-spaces (c ∷ spaces) s t ts h e =
    cut-other dup_key (spaces ++ s) c (rw (h.0) refl)
    ∙ ap (cons_head c) (cut-spaces spaces s t ts h.1 e)

trim_start-spaces :
    (spaces name : Text)
    → All (λ c. c ≡ b' ') spaces
    → All IsNameChar name
    → trim_start (spaces ++ name) ≡ name
trim_start-spaces [] [] h k = refl
trim_start-spaces [] (c ∷ name) h k = rw (k.0.0) refl
trim_start-spaces (c ∷ spaces) name h k = rw (h.0) (trim_start-spaces spaces name h.1 k)

trim_end-name : (name : Text) → All IsNameChar name → trim_end name ≡ name
trim_end-name [] h = refl
trim_end-name (c ∷ []) h = rw (h.0.0) refl
trim_end-name (c ∷ d ∷ name) h = rw (trim_end-name (d ∷ name) h.1) refl

trim-name :
    (spaces name : Text)
    → All (λ c. c ≡ b' ') spaces
    → All IsNameChar name
    → trim (spaces ++ name) ≡ name
unfolding trim
trim-name spaces name h k = ap trim_end (trim_start-spaces spaces name h k) ∙ trim_end-name name k

spaces_lack_colon : (spaces : Text) → All (λ c. c ≡ b' ') spaces → Lacks b':' spaces
spaces_lack_colon [] h = tt
spaces_lack_colon (c ∷ spaces) h = (omega (arith, h.0), spaces_lack_colon spaces h.1)

names_lack_colon : (name : Text) → All IsNameChar name → Lacks b':' name
names_lack_colon [] h = tt
names_lack_colon (c ∷ name) h = (h.0.1, names_lack_colon name h.1)

-- The field of a token that begins with a name.
field_of_token :
    (spaces name t : Text)
    → All (λ c. c ≡ b' ') spaces
    → All IsNameChar name
    → trim (first_or [] (split (b':' ∷ []) (spaces ++ (name ++ b':' ∷ t)))) ≡ name
unfolding split
field_of_token spaces name t h k =
    let lacks : Lacks b':' (spaces ++ name) =
      All-append _ spaces name (spaces_lack_colon spaces h) (names_lack_colon name k) in
    let regroup : spaces ++ (name ++ b':' ∷ t) ≡ (spaces ++ name) ++ (b':' ∷ []) ++ t =
      sym (append_assoc spaces name (b':' ∷ t))
      ∙ sym (append_assoc (spaces ++ name) (b':' ∷ []) t) in
    ap (λ s. trim (first_or [] (cut (b':' ∷ []) s 0))) regroup
    ∙ ap (λ ts. trim (first_or [] ts)) (cut-prefix [] (spaces ++ name) t b':' tt lacks)
    ∙ trim-name spaces name h k

-- The field a message about a duplicated key names.
parse_duplicated_field-key :
    (pre spaces name rest : Text)
    → Lacks b'{' pre
    → All (λ c. c ≡ b' ') spaces
    → All IsNameChar name
    → parse_duplicated_field (pre ++ dup_key ++ (spaces ++ (name ++ b':' ∷ rest))) ≡ some name
unfolding parse_duplicated_field split field_in
parse_duplicated_field-key pre spaces name rest g h k =
    let (t, ts, p) = cut-parts dup_key rest 0 in
    let s = spaces ++ (name ++ b':' ∷ rest) in
    let tokens : cut dup_key (pre ++ dup_key ++ s) 0 ≡ pre ∷ (spaces ++ (name ++ b':' ∷ t)) ∷ ts =
      cut-prefix (codes "dup key: ") pre s b'{' (ground arith) g
      ∙ ap (λ ts. pre ∷ ts) (cut-spaces spaces _ _ ts h (cut-names name rest t ts k p)) in
    ap field_in tokens ∙ ap some (field_of_token spaces name t h k)

cut-Lacks : (ps s : Text) (y : ℕ) → Lacks y s → cut (ps ++ y ∷ []) s 0 ≡ s ∷ []
unfolding cut
cut-Lacks ps [] y h = refl
cut-Lacks ps (c ∷ s) y h =
    cut-other (ps ++ y ∷ []) s c (no_start-Lacks ps [] (c ∷ s) y h)
    ∙ ap (cons_head c) (cut-Lacks ps s y h.1)

parse_duplicated_field-other :
    (message : Text) → Lacks b'{' message → parse_duplicated_field message ≡ none
unfolding parse_duplicated_field split field_in
parse_duplicated_field-other message h = ap field_in (cut-Lacks (codes "dup key: ") message b'{' h)

-- The answer of the server that names a field.
abbrev duplicated : Option Text → Answer
duplicated field = user_input_error (text_of field ++ codes " is duplicated") field (record {
  messages = (text_of field ++ codes " is duplicated") ∷ [];
  status_code = 400;
  error = none;
})

-- Whatever the message of a duplicate, the answer is the one for the field that the message names.
mongo_catch-11000 :
    (message : Text)
    → mongo_catch (record { code = 11000; message = message })
      ≡ duplicated (parse_duplicated_field message)
unfolding mongo_catch
mongo_catch-11000 message = refl

-- An exception of code 11000 whose message has no curly bracket before a key, and in the key spaces,
-- a name without white space and colons, and a colon, is answered with status 400, that name as the
-- field, and the message that the name is duplicated. What follows the colon, other keys and the value
-- included, changes nothing.
pub mongo_catch-duplicate :
    (pre spaces name rest : Text)
    → Lacks b'{' pre
    → All (λ c. c ≡ b' ') spaces
    → All IsNameChar name
    → mongo_catch
        (record { code = 11000; message = pre ++ dup_key ++ (spaces ++ (name ++ b':' ∷ rest)) })
      ≡ duplicated (some name)
mongo_catch-duplicate pre spaces name rest g h k =
    mongo_catch-11000 _ ∙ ap duplicated (parse_duplicated_field-key pre spaces name rest g h k)

-- An exception of code 11000 without a curly bracket in its message is answered with status 400, no
-- field, and a message about "undefined".
mongo_catch-no_key :
    (message : Text)
    → Lacks b'{' message
    → mongo_catch (record { code = 11000; message = message }) ≡ duplicated none
mongo_catch-no_key message h =
    mongo_catch-11000 message ∙ ap duplicated (parse_duplicated_field-other message h)
