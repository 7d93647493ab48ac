-- ===== src/Filter.antt =====
-- src/filter: what the server answers when a method has thrown, with `parseDuplicatedField` of
-- src/common/util/mongo-error.util.ts. A text is the list of its code points.
pub mod Texts
pub mod Starts
pub mod Duplicated
pub mod All
mod Tests
use Prim.Native.String.{String}
use zombiies_api.Common.{
  ℕ, ◌≡◌, Bool, true, false, Option, none, some, List, [], ◌∷◌, ◌++◌, ◌==◌, if◌then◌else◌,
}
use zombiies_api.Filter.Texts.{Text, codes, split, trim}

-- What `getResponse()` of an `HttpException` returns: a text, or an object with one message or many.
pub data Message : Type 0 where
  one : Text → Message
  many : List Text → Message

pub data HttpResponse : Type 0 where
  plain : Text → HttpResponse
  body : Message → Option Text → HttpResponse

pub record HttpException : Type 0 where
  pub message : Text
  pub response : HttpResponse
  pub status : ℕ

pub record MongoError : Type 0 where
  pub code : ℕ
  pub message : Text

-- The `response` among the extensions of an answer.
pub record Extension : Type 0 where
  pub messages : List Text
  pub status_code : ℕ
  pub error : Option Text

-- An answer of apollo-server: `ApolloError`, or `UserInputError` with the field that is wrong.
pub data Answer : Type 0 where
  apollo_error : Text → Extension → Answer
  user_input_error : Text → Option Text → Extension → Answer

abbrev pub messages_of : Message → List Text
messages_of (one t) = t ∷ []
messages_of (many ts) = ts

abbrev pub get_extension_response : HttpResponse → ℕ → Extension
get_extension_response (plain t) status = record {
  messages = t ∷ [];
  status_code = status;
  error = some t;
}
get_extension_response (body message error) status = record {
  messages = messages_of message;
  status_code = status;
  error = error;
}

-- `HttpExceptionFilter.catch`.
abbrev pub http_catch : HttpException → Answer
http_catch e = apollo_error e.message (get_extension_response e.response e.status)

abbrev pub second : {A : Type 0} → List A → Option A
second [] = none
second (x ∷ []) = none
second (x ∷ y ∷ xs) = some y

abbrev pub first_or : {A : Type 0} → A → List A → A
first_or d [] = d
first_or d (x ∷ xs) = x

abbrev pub dup_key : Text
dup_key = codes "dup key: {"

-- The field that the parts of a message name.
unfoldable pub field_in : List Text → Option Text
unfolding split trim
field_in tokens = elim (second tokens) [
  | none ↦ none
  | some token ↦ some (trim (first_or [] (split (b':' ∷ []) token)))
]

unfoldable pub parse_duplicated_field : Text → Option Text
unfolding split field_in
parse_duplicated_field message = field_in (split dup_key message)

-- The text of a field, which may be `undefined`.
abbrev pub text_of : Option Text → Text
text_of none = codes "undefined"
text_of (some t) = t

-- `MongoExceptionFilter.catch`.
unfoldable pub mongo_catch : MongoError → Answer
unfolding parse_duplicated_field
mongo_catch e =
    if e.code == 11000
    then user_input_error (text_of (parse_duplicated_field e.message) ++ codes " is duplicated")
        (parse_duplicated_field e.message)
        (record {
          messages = (text_of (parse_duplicated_field e.message) ++ codes " is duplicated") ∷ [];
          status_code = 400;
          error = none;
        })
    else user_input_error e.message none
        (record { messages = e.message ∷ []; status_code = 400; error = none })
