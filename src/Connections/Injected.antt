-- ===== src/Connections/Injected.antt =====
-- What is injected under the tokens of a module of src/lib: the injector of NestJS as an interface.
use zombiies_api.Common.{
  ℕ, suc, ◌≡◌, refl, ap, ◌∙◌, true, false, Option, none, some, List, [], ◌∷◌, ◌++◌, ==_refl, Result,
  ok,
}
use zombiies_api.Filter.Texts.{Text, codes}
use zombiies_api.Connections.{
  Token, class_of, text_eq, token_eq, Value, options, connection, options_factory, Provider,
  use_value, use_factory, use_class, AsyncOptions, DynamicModule, Core, or_default, for_root,
  for_root_async, get_options_token, get_connection_token, connect, created_by, map_result,
  create_async_providers, create_async_options_provider,
}
use zombiies_api.Connections.Injector.{
  registered, get_all, Injector, text_eq_refl, text_eq-prefix, get_one, hit, miss,
}

module _ {O K : Type 0} (core : Core O K) (injector : Injector O K)
    (others : List (Provider O K)) where
  open injector use {get, instance_of}

  -- Asynchronous options that give `o`: by a factory without arguments, by a class of the module,
  -- or by a class that another module provides.
  pub data Gives (o : O) : AsyncOptions O K → Type 0 where
    by_factory :
        (imports : List ℕ) (c e : Option ℕ) (f : List (Value O K) → Result O)
        → f [] ≡ ok o
        → Gives o (record {
          imports = imports;
          inject = none;
          use_class = c;
          use_existing = e;
          use_factory = some f;
        })
    by_class :
        (imports : List ℕ) (inject : Option (List Token)) (c : ℕ)
        → instance_of c ≡ options_factory (ok o)
        → registered (class_of c) others ≡ []
        → Gives o (record {
          imports = imports;
          inject = inject;
          use_class = some c;
          use_existing = none;
          use_factory = none;
        })
    by_existing :
        (imports : List ℕ) (inject : Option (List Token)) (c : ℕ)
        → instance_of c ≡ options_factory (ok o)
        → registered (class_of c) others ≡ use_class (class_of c) c ∷ []
        → Gives o (record {
          imports = imports;
          inject = inject;
          use_class = none;
          use_existing = some c;
          use_factory = none;
        })

  -- The connection follows from the options under their token.
  connected :
      (n : ℕ) (ps : List (Provider O K)) (name : Option Text) (o : O)
      → registered (get_connection_token core name) ps
        ≡ use_factory
            (get_connection_token core name)
            (get_options_token core name ∷ [])
            (connect core)
          ∷ []
      → get n ps (get_options_token core name) ≡ ok (options o)
      → get (suc n) ps (get_connection_token core name)
        ≡ map_result connection (core.create_connection o)
  connected n ps name o r e =
      injector.factory_lem n ps (get_connection_token core name) (get_options_token core name ∷ [])
        (connect core) (options o ∷ []) r (rw e refl)

  module _ (name : Option Text) (d : text_eq core.connection_token core.options_token ≡ false)
      (d' : text_eq core.options_token core.connection_token ≡ false)
      (free : registered (get_options_token core name) others ≡ [])
      (free' : registered (get_connection_token core name) others ≡ []) where
    abbrev opt : Token
    opt = get_options_token core name

    abbrev conn : Token
    conn = get_connection_token core name

    same_opt : token_eq opt opt ≡ true
    same_opt =
        text_eq_refl (or_default name core.default_connection ++ codes "_" ++ core.options_token)

    same_conn : token_eq conn conn ≡ true
    same_conn =
        text_eq_refl (or_default name core.default_connection ++ codes "_" ++ core.connection_token)

    apart : token_eq opt conn ≡ false
    apart =
        text_eq-prefix (or_default name core.default_connection ++ codes "_") core.options_token
          core.connection_token
        ∙ d'

    apart' : token_eq conn opt ≡ false
    apart' =
        text_eq-prefix (or_default name core.default_connection ++ codes "_") core.connection_token
          core.options_token
        ∙ d

    abbrev connection_provider : Provider O K
    connection_provider = use_factory conn (opt ∷ []) (connect core)

    direct-connection :
        (o : O) (k : K)
        → get 3 (use_value opt (options o) ∷ use_value conn (connection k) ∷ others) conn
          ≡ ok (connection k)
    direct-connection o k = injector.value_lem 2 _ conn (connection k) (
        miss conn (use_value opt (options o)) (use_value conn (connection k) ∷ others) apart
          (hit conn (use_value conn (connection k)) others same_conn free'))

    -- The provider of the options in front of the one of the connection.
    options_first :
        (o : O) (inject : List Token) (f : List (Value O K) → Result (Value O K))
        (vs : List (Value O K)) (more : List (Provider O K))
        → let p = use_factory opt inject f in
          registered opt more ≡ []
          → registered conn more ≡ connection_provider ∷ []
          → get_all (get 1 (p ∷ more)) inject ≡ ok vs
          → f vs ≡ ok (options o)
          → get 3 (p ∷ more) conn ≡ map_result connection (core.create_connection o)
    options_first o inject f vs more none_more conn_more e g =
        connected 2 _ name o (miss conn (use_factory opt inject f) more apart conn_more) (
          injector.factory_lem 1 _ opt inject f vs
            (hit opt (use_factory opt inject f) more same_opt none_more) e
          ∙ g)

    last_none : registered opt (connection_provider ∷ others) ≡ []
    last_none = miss opt connection_provider others apart' free

    last_one : registered conn (connection_provider ∷ others) ≡ connection_provider ∷ []
    last_one = hit conn connection_provider others same_conn free'

    async-connection :
        (o : O) (a : AsyncOptions O K)
        → Gives o a
        → (async : DynamicModule O K) × (for_root_async core a name ≡ ok async)
          × (get 3 (async.providers ++ others) conn
              ≡ map_result connection (core.create_connection o))
    unfolding for_root_async create_async_providers create_async_options_provider
    async-connection o _ (by_factory imports c none f gives) = (
      _,
      refl,
      options_first o [] (λ vs. map_result options (f vs)) [] _ last_none last_one refl
          (ap (map_result options) gives),
    )
    async-connection o _ (by_factory imports c (some x) f gives) = (
      _,
      refl,
      options_first o [] (λ vs. map_result options (f vs)) [] _ last_none last_one refl
          (ap (map_result options) gives),
    )
    async-connection o _ (by_class imports inject c gives unused) = (
      _,
      refl,
      options_first o (class_of c ∷ []) created_by (instance_of c ∷ []) _
          (miss opt (use_class (class_of c) c) (connection_provider ∷ others) refl last_none)
          (miss conn (use_class (class_of c) c) (connection_provider ∷ others) refl last_one)
          (get_one (get 1 _) (class_of c) (
            injector.class_lem 0 _ (class_of c) c (
              miss (class_of c) (use_factory opt (class_of c ∷ []) created_by)
                (use_class (class_of c) c ∷ connection_provider ∷ others) refl
                (hit (class_of c) (use_class (class_of c) c) (connection_provider ∷ others)
                  (==_refl c) (miss (class_of c) connection_provider others refl unused)))))
          (ap (λ v. created_by (v ∷ [])) gives),
    )
    async-connection o _ (by_existing imports inject c gives there) = (
      _,
      refl,
      options_first o (class_of c ∷ []) created_by (instance_of c ∷ []) _ last_none last_one
          (get_one (get 1 _) (class_of c) (
            injector.class_lem 0 _ (class_of c) c (
              miss (class_of c) (use_factory opt (class_of c ∷ []) created_by)
                (connection_provider ∷ others) refl
                (miss (class_of c) connection_provider others refl there))))
          (ap (λ v. created_by (v ∷ [])) gives),
    )

  -- Where the two tokens of a library differ and no other provider has the tokens of this connection:
  -- options that give `o`, in any of the three ways, register under the token of the connection the
  -- same connection as `forRoot` with `o`, which is the one that the library creates from `o`.
  pub for_root_async-for_root :
      (name : Option Text) (o : O) (k : K) (a : AsyncOptions O K)
      → text_eq core.connection_token core.options_token ≡ false
      → text_eq core.options_token core.connection_token ≡ false
      → registered (get_options_token core name) others ≡ []
      → registered (get_connection_token core name) others ≡ []
      → core.create_connection o ≡ ok k
      → Gives o a
      → (direct async : DynamicModule O K) × (for_root core o name ≡ ok direct)
        × (for_root_async core a name ≡ ok async)
        × (get 3 (direct.providers ++ others) (get_connection_token core name) ≡ ok (connection k))
        × (get 3 (async.providers ++ others) (get_connection_token core name) ≡ ok (connection k))
  unfolding for_root
  for_root_async-for_root name o k a d d' free free' e g =
      let (async, f, c) = async-connection name d d' free free' o a g in
      (
        record {
          imports = [];
          providers =
              use_value (get_options_token core name) (options o)
              ∷ use_value (get_connection_token core name) (connection k)
              ∷ [];
          exports =
              use_value (get_options_token core name) (options o)
              ∷ use_value (get_connection_token core name) (connection k)
              ∷ [];
        },
        async,
        rw e refl,
        f,
        direct-connection name d d' free free' o k,
        c ∙ ap (map_result connection) e,
      )
