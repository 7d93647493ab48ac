-- ===== src/Filter/Tests.antt =====
-- Answers to concrete exceptions.
use zombiies_api.Common.{◌≡◌, refl, none, some, [], ◌∷◌, true, false, arith}
use zombiies_api.Filter.Texts.{Text, codes}
use zombiies_api.Filter.{mongo_catch, user_input_error, parse_duplicated_field, field_in}
use zombiies_api.Filter.All.{
  after, any_before, capture_before, match_first, unescape, error_regex, revert_regex,
  extract_eth_revert_reason, catch_all, unchanged, answered, internal_error,
}
use zombiies_api.Filter.All.Reasons.{escape, Explains, reverted, extract_eth_revert_reason-Explains}
use zombiies_api.Filter.Duplicated.{mongo_catch-duplicate}

-- The message of MongoDB for an address that is taken.
abbrev taken : Text
taken =
    codes
      "E11000 duplicate key error collection: zombiies.users index: email_1 dup key: { email: \"a@b.c\" }"

-- A message of a server before version 4.2, which quotes no field.
abbrev taken_old : Text
taken_old = codes "E11000 dup key: { : \"a@b.c\" }"

taken_field : parse_duplicated_field taken ≡ some (codes "email")
unfolding parse_duplicated_field field_in
taken_field = refl

taken_old_field : parse_duplicated_field taken_old ≡ some []
unfolding parse_duplicated_field field_in
taken_old_field = refl

other_error :
    mongo_catch (record { code = 7; message = codes "no" })
    ≡ user_input_error
        (codes "no")
        none
        (record { messages = codes "no" ∷ []; status_code = 400; error = none })
unfolding mongo_catch
other_error = refl

mongo_catch-duplicate_example :
    mongo_catch (record { code = 11000; message = taken })
    ≡ user_input_error
        (codes "email is duplicated")
        (some (codes "email"))
        (record { messages = codes "email is duplicated" ∷ []; status_code = 400; error = none })
mongo_catch-duplicate_example =
    mongo_catch-duplicate
      (codes "E11000 duplicate key error collection: zombiies.users index: email_1 ") (codes " ")
      (codes "email") (codes " \"a@b.c\" }") (ground arith) (refl, tt) (ground arith)

-- The message of a call that the contract refuses.
abbrev refusal : Text
refusal = codes "{\"code\":3,\"message\":\"Error: reverted with reason string 'Not owner'\"}"

refusal-Explains : Explains refusal (codes "Not owner")
refusal-Explains =
    reverted (codes "{\"code\":3,\"") (codes "reverted with reason string ") (codes "ot owner")
      (codes "}") b' ' b'N' (ground arith) (ground arith) (ground arith)

extract_eth_revert_reason-Explains_example :
    (extract_eth_revert_reason refusal ≡ codes "Not owner")
    × (extract_eth_revert_reason (escape refusal) ≡ codes "Not owner")
extract_eth_revert_reason-Explains_example =
    extract_eth_revert_reason-Explains refusal (codes "Not owner") refusal-Explains (ground arith)

no_message :
    catch_all (record { has_response = false; message = none })
    ≡ answered (internal_error (codes "Internal server error"))
unfolding catch_all extract_eth_revert_reason match_first unescape error_regex revert_regex after
    any_before capture_before
no_message = refl

has_answer : catch_all (record { has_response = true; message = some (codes "x") }) ≡ unchanged
unfolding catch_all
has_answer = refl
