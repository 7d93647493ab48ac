-- ===== src/Connections.antt =====
-- src/lib: the dynamic modules of src/lib/pub-sub and src/lib/ipfs-storage, which register a
-- connection under a token. The two core modules have the same code; `Core` is where they differ.
pub mod PubSub
pub mod IpfsStorage
pub mod Injector
pub mod Injected
mod Tests
use zombiies_api.Common.{
  ℕ, ◌≡◌, Bool, true, false, not, ◌&&◌, ◌||◌, Option, none, some, List, [], ◌∷◌, ◌++◌, ◌==◌,
  if◌then◌else◌, is_some, Result, ok, err, Error, type_error, plain_error, throw_if, ◌>>=◌, ◌>>◌,
}
use zombiies_api.Filter.Texts.{Text, codes}

abbrev pub text_eq : Text → Text → Bool
text_eq [] [] = true
text_eq [] (d ∷ t) = false
text_eq (c ∷ s) [] = false
text_eq (c ∷ s) (d ∷ t) = (c == d) && text_eq s t

-- What a provider is registered under: a text or a class.
pub data Token : Type 0 where
  named : Text → Token
  class_of : ℕ → Token

abbrev pub token_eq : Token → Token → Bool
token_eq (named s) (named t) = text_eq s t
token_eq (class_of c) (class_of d) = c == d
token_eq (named s) (class_of d) = false
token_eq (class_of c) (named t) = false

-- What can be injected: options, a connection, an object whose method creates options, or another
-- value.
pub data Value (O K : Type 0) : Type 0 where
  options : O → Value O K
  connection : K → Value O K
  options_factory : Result O → Value O K
  other : ℕ → Value O K

pub data Provider (O K : Type 0) : Type 0 where
  use_value : Token → Value O K → Provider O K
  use_factory : Token → List Token → (List (Value O K) → Result (Value O K)) → Provider O K
  use_class : Token → ℕ → Provider O K

pub record DynamicModule (O K : Type 0) : Type 0 where
  pub imports : List ℕ
  pub providers : List (Provider O K)
  pub exports : List (Provider O K)

pub record AsyncOptions (O K : Type 0) : Type 0 where
  pub imports : List ℕ
  pub inject : Option (List Token)
  pub use_class : Option ℕ
  pub use_existing : Option ℕ
  pub use_factory : Option (List (Value O K) → Result O)

-- The constants of a library, and how it connects.
pub record Core (O K : Type 0) : Type 0 where
  pub default_connection : Text
  pub connection_token : Text
  pub options_token : Text
  pub create_connection : O → Result K

-- `a || b`, for texts that may be undefined and for values that may.
abbrev pub or_default : Option Text → Text → Text
or_default none d = d
or_default (some []) d = d
or_default (some (c ∷ s)) d = c ∷ s

abbrev pub or_list : Option (List Token) → List Token
or_list none = []
or_list (some ts) = ts

abbrev pub first_of : Option ℕ → Option ℕ → Option ℕ
first_of none b = b
first_of (some a) b = some a

abbrev pub map_result : {A B : Type 0} → (A → B) → Result A → Result B
map_result f (err x) = err x
map_result f (ok a) = ok (f a)

-- The arguments of a provider's factory, which is given one value.
abbrev pub created_by : {O K : Type 0} → List (Value O K) → Result (Value O K)
created_by (options_factory r ∷ vs) = map_result options r
created_by vs = err type_error

-- `{ provide: options.useClass, useClass: options.useClass }`; there is a class where this is asked.
abbrev pub class_provider : {O K : Type 0} → Option ℕ → List (Provider O K)
class_provider none = []
class_provider (some c) = use_class (class_of c) c ∷ []

module _ {O K : Type 0} (core : Core O K) where
  abbrev pub get_options_token : Option Text → Token
  get_options_token name =
      named (or_default name core.default_connection ++ codes "_" ++ core.options_token)

  abbrev pub get_connection_token : Option Text → Token
  get_connection_token name =
      named (or_default name core.default_connection ++ codes "_" ++ core.connection_token)

  unfoldable pub for_root : O → Option Text → Result (DynamicModule O K)
  for_root o name = do
    k ← core.create_connection o
    let providers =
        use_value (get_options_token name) (options o)
        ∷ use_value (get_connection_token name) (connection k)
        ∷ []
    ok (record { imports = []; providers = providers; exports = providers })

  abbrev pub is_configured : AsyncOptions O K → Bool
  is_configured a = is_some a.use_existing || is_some a.use_factory || is_some a.use_class

  abbrev pub invalid_configuration : Error
  invalid_configuration =
      plain_error "Invalid configuration. Must provide useFactory, useClass or useExisting"

  -- The options come from the factory or, without one, from an injected object.
  unfoldable pub create_async_options_provider :
      AsyncOptions O K → Option Text → Result (Provider O K)
  create_async_options_provider a name = do
    throw_if (not (is_configured a)) invalid_configuration
    elim a.use_factory [
      | some f ↦ ok (
          use_factory (get_options_token name) (or_list a.inject) (λ vs. map_result options (f vs)))
      | none ↦ elim (first_of a.use_class a.use_existing) [
        | some c ↦ ok (use_factory (get_options_token name) (class_of c ∷ []) created_by)
        | none ↦ err invalid_configuration
      ]
    ]

  unfoldable pub create_async_providers :
      AsyncOptions O K → Option Text → Result (List (Provider O K))
  unfolding create_async_options_provider
  create_async_providers a name = do
    throw_if (not (is_configured a)) invalid_configuration
    p ← create_async_options_provider a name
    ok (
        if is_some a.use_existing || is_some a.use_factory
        then p ∷ []
        else p ∷ class_provider a.use_class)

  -- The factory of a connection is given the options.
  abbrev pub connect : List (Value O K) → Result (Value O K)
  connect (options o ∷ vs) = map_result connection (core.create_connection o)
  connect vs = err type_error

  unfoldable pub for_root_async : AsyncOptions O K → Option Text → Result (DynamicModule O K)
  unfolding create_async_providers
  for_root_async a name = do
    providers ← create_async_providers a name
    let connection_provider =
        use_factory (get_connection_token name) (get_options_token name ∷ []) connect
    ok (record {
      imports = a.imports;
      providers = providers ++ connection_provider ∷ [];
      exports = connection_provider ∷ [];
    })
