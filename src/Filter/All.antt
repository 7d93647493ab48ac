-- ===== src/Filter/All.antt =====
-- src/filter/all-exception.filter.ts: the reason of a failed transaction, found in the message of the
-- exception by two patterns. A pattern is matched at the first place where it can be, and `.+?` is the
-- shortest text with which the rest matches.
pub mod Searches
pub mod Reasons
use zombiies_api.Common.{
  ℕ, ◌≡◌, Bool, true, false, Option, none, some, List, [], ◌∷◌, ◌++◌, ◌==◌, ◌&&◌, ◌||◌, ◌-◌, length,
  if◌then◌else◌,
}
use zombiies_api.Filter.Texts.{Text, codes, starts_with}
use zombiies_api.Filter.{Answer, apollo_error}

-- What `.` does not match.
abbrev pub is_line_end : ℕ → Bool
is_line_end c = (c == 10) || (c == 13) || (c == 8232) || (c == 8233)

abbrev pub Pattern : Type 0
Pattern = Text → Option Text

-- A literal text, and what follows it.
unfoldable pub after : Text → Pattern → Pattern
after [] k s = k s
after (p ∷ ps) k [] = none
after (p ∷ ps) k (c ∷ s) = if p == c then after ps k s else none

-- `.+?` before what follows it.
unfoldable pub any_before : Pattern → Pattern
any_before k [] = none
any_before k (c ∷ s) =
    let rest = any_before k s in
    if is_line_end c then none else elim (k s) [ some t ↦ some t | none ↦ rest ]

abbrev pub prepend : ℕ → Option Text → Option Text
prepend c none = none
prepend c (some t) = some (c ∷ t)

-- `(.+?)` before a literal text: the group.
unfoldable pub capture_before : Text → Pattern
capture_before stop [] = none
capture_before stop (c ∷ s) =
    let rest = capture_before stop s in
    if is_line_end c then none else (if starts_with stop s then some (c ∷ []) else prepend c rest)

-- `text.match(pattern)`.
unfoldable pub match_first : Pattern → Pattern
match_first k [] = k []
match_first k (c ∷ s) =
    let rest = match_first k s in elim (k (c ∷ s)) [ some t ↦ some t | none ↦ rest ]

-- `message.replace(/\\"/g, '"')`.
unfoldable pub unescape : Text → Text
unescape [] = []
unescape (c ∷ []) = c ∷ []
unescape (c ∷ d ∷ s) =
    let skipped = unescape s in
    let rest = unescape (d ∷ s) in if (c == b'\\') && (d == b'"') then b'"' ∷ skipped else c ∷ rest

unfoldable pub error_regex : Pattern
unfolding after capture_before
error_regex = after (codes "message\":\"") (capture_before (codes "\""))

unfoldable pub revert_regex : Pattern
unfolding after any_before capture_before
revert_regex =
    after (codes "message\":\"Error:")
      (any_before (after (codes "'") (capture_before (codes "'\""))))

abbrev pub or_text : Option Text → Text → Text
or_text none t = t
or_text (some s) t = s

-- `revertFound[1]`, else `errorFound[1]`, else the message.
abbrev pub first_reason : Option Text → Option Text → Text → Text
first_reason (some reason) error message = reason
first_reason none error message = or_text error message

unfoldable pub extract_eth_revert_reason : Text → Text
unfolding match_first unescape error_regex revert_regex
extract_eth_revert_reason message =
    let message_to_process = unescape message in
    first_reason (match_first revert_regex message_to_process)
      (match_first error_regex message_to_process) message_to_process

-- The response of an exception, if it has one, and its message.
pub record Thrown : Type 0 where
  pub has_response : Bool
  pub message : Option Text

-- The exception itself, or an error in its place.
pub data Caught : Type 0 where
  unchanged : Caught
  answered : Answer → Caught

abbrev pub internal_error : Text → Answer
internal_error message =
    apollo_error message (record { messages = message ∷ []; status_code = 500; error = none })

-- `AllExceptionFilter.catch`.
unfoldable pub catch_all : Thrown → Caught
unfolding extract_eth_revert_reason
catch_all e =
    let extracted = extract_eth_revert_reason (or_text e.message (codes "Internal server error")) in
    if e.has_response then unchanged else answered (internal_error extracted)
