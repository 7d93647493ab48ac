-- ===== src/Filter/All/Reasons.antt =====
-- The reasons that the patterns of src/filter/all-exception.filter.ts find.
use zombiies_api.Common.{
  ℕ, ◌≡◌, ◌≢◌, refl, ap, ◌∙◌, inl, inr, none, some, [], ◌∷◌, ◌++◌, ◌==◌, if◌then◌else◌, Bool-cases,
  arith,
}
use zombiies_api.Filter.Texts.{Text, codes, Lacks}
use zombiies_api.Filter.Starts.{no_start-Lacks}
use zombiies_api.Filter.All.{
  is_line_end, Pattern, after, any_before, capture_before, match_first, unescape, error_regex,
  revert_regex, or_text, first_reason, extract_eth_revert_reason,
}
use zombiies_api.Filter.All.Searches.{
  after-other, match_first-Lacks, after-Lacks, NotWithin, match_first-found, Plain,
  any_before-found, capture_before-found,
}

-- A text as it stands in a quoted text.
abbrev pub escape : Text → Text
escape [] = []
escape (c ∷ s) = let rest = escape s in if c == b'"' then b'\\' ∷ b'"' ∷ rest else c ∷ rest

unescape-other : (c : ℕ) (s : Text) → c ≢ b'\\' → unescape (c ∷ s) ≡ c ∷ unescape s
unfolding unescape
unescape-other c [] h = refl
unescape-other c (d ∷ s) h = ground (arith, h)

unescape-Lacks : (s : Text) → Lacks b'\\' s → unescape s ≡ s
unfolding unescape
unescape-Lacks [] h = refl
unescape-Lacks (c ∷ s) h = unescape-other c s h.0 ∙ ap (λ t. c ∷ t) (unescape-Lacks s h.1)

unescape-escape : (s : Text) → Lacks b'\\' s → unescape (escape s) ≡ s
unfolding unescape
unescape-escape [] h = refl
unescape-escape (c ∷ s) h = elim (Bool-cases (c == b'"')) [
  | inl e ↦
      let quoted : b'"' ≡ c = ground (arith, e) in
      rw e (ap (λ t. b'"' ∷ t) (unescape-escape s h.1) ∙ ap (λ d. d ∷ s) quoted)
  | inr e ↦ rw e (unescape-other c (escape s) h.0 ∙ ap (λ t. c ∷ t) (unescape-escape s h.1))
]

abbrev pub message_key : Text
message_key = codes "message\":\""

abbrev pub error_key : Text
error_key = codes "message\":\"Error:"

-- The reason of a failure in the message of an exception. It stands in single quotes behind the
-- first `message":"Error:` and some text; or, in a message without single quotes, it is the text
-- behind the first `message":"` up to the next quote; or it is a whole message without quotes. The
-- text in front and the reason are on one line and not empty.
pub data Explains : Text → Text → Type 0 where
  reverted :
      (pre mid reason post : Text) (m r : ℕ)
      → Plain b'\'' (m ∷ mid)
      → Plain b'\'' (r ∷ reason)
      → NotWithin error_key pre
          (error_key ++ (m ∷ mid ++ b'\'' ∷ (r ∷ reason ++ (b'\'' ∷ b'"' ∷ [] ++ post))))
      → Explains
          (pre ++ (error_key ++ (m ∷ mid ++ b'\'' ∷ (r ∷ reason ++ (b'\'' ∷ b'"' ∷ [] ++ post)))))
          (r ∷ reason)
  failed :
      (pre reason post : Text) (r : ℕ)
      → Plain b'"' (r ∷ reason)
      → NotWithin message_key pre (message_key ++ (r ∷ reason ++ (b'"' ∷ [] ++ post)))
      → Lacks b'\'' (pre ++ (message_key ++ (r ∷ reason ++ (b'"' ∷ [] ++ post))))
      → Explains (pre ++ (message_key ++ (r ∷ reason ++ (b'"' ∷ [] ++ post)))) (r ∷ reason)
  whole : (t : Text) → Lacks b'"' t → Lacks b'\'' t → Explains t t

any_before-Lacks :
    (k : Pattern) (y : ℕ) (s : Text)
    → Lacks y s
    → ((t : Text) → Lacks y t → k t ≡ none)
    → any_before k s ≡ none
unfolding any_before
any_before-Lacks k y [] h none_of = refl
any_before-Lacks k y (c ∷ s) h none_of = elim (Bool-cases (is_line_end c)) [
  | inl e ↦ rw e refl
  | inr e ↦ rw (e, none_of s h.1) (any_before-Lacks k y s h.1 none_of)
]

revert_regex-Lacks : (t : Text) → Lacks b'\'' t → match_first revert_regex t ≡ none
unfolding revert_regex
revert_regex-Lacks t h = match_first-Lacks revert_regex b'\'' t h λ t h.
    after-Lacks error_key _ b'\'' t h λ t h.
      any_before-Lacks _ b'\'' t h
        λ t h. after-other (codes "'") t _ (no_start-Lacks [] [] t b'\'' h)

error_regex-Lacks : (t : Text) → Lacks b'"' t → match_first error_regex t ≡ none
unfolding error_regex
error_regex-Lacks t h =
    match_first-Lacks error_regex b'"' t h
      λ t h. after-other message_key t _ (no_start-Lacks (codes "message") (codes ":\"") t b'"' h)

-- What the two patterns find.
abbrev reason_in : Text → Text
reason_in t = first_reason (match_first revert_regex t) (match_first error_regex t) t

reason_in-reverted : (t : Text) {r : Text} → match_first revert_regex t ≡ some r → reason_in t ≡ r
reason_in-reverted t e = rw (e, first_reason) refl

reason_in-failed :
    (t : Text) {r : Text}
    → match_first revert_regex t ≡ none
    → match_first error_regex t ≡ some r
    → reason_in t ≡ r
reason_in-failed t e f = rw (e, first_reason) (rw (f, or_text) refl)

reason_in-whole :
    (t : Text)
    → match_first revert_regex t ≡ none
    → match_first error_regex t ≡ none
    → reason_in t ≡ t
reason_in-whole t e f = rw (e, first_reason) (rw (f, or_text) refl)

reason_in-Explains : {t reason : Text} → Explains t reason → reason_in t ≡ reason
unfolding revert_regex error_regex
reason_in-Explains (reverted pre mid reason post m r front said before) = reason_in-reverted _ (
    match_first-found error_key pre _
      (any_before (after (codes "'") (capture_before (codes "'\"")))) before
      (any_before-found b'\'' m mid _ _ front
        (capture_before-found b'\'' r (codes "\"") reason post said)))
reason_in-Explains (failed pre reason post r said before h) =
    reason_in-failed _ (revert_regex-Lacks _ h) (
      match_first-found message_key pre _ (capture_before (codes "\"")) before
        (capture_before-found b'"' r [] reason post said))
reason_in-Explains (whole t h k) =
    reason_in-whole t (revert_regex-Lacks t k) (error_regex-Lacks t h)

-- The reason of a message without backslashes is what `extractEthRevertReason` returns for the
-- message, and for the message as it stands in a quoted text, with a backslash before each quote.
pub extract_eth_revert_reason-Explains :
    (t reason : Text)
    → Explains t reason
    → Lacks b'\\' t
    → (extract_eth_revert_reason t ≡ reason) × (extract_eth_revert_reason (escape t) ≡ reason)
unfolding extract_eth_revert_reason
extract_eth_revert_reason-Explains t reason e h =
    let found = reason_in-Explains e in
    (ap reason_in (unescape-Lacks t h) ∙ found, ap reason_in (unescape-escape t h) ∙ found)
