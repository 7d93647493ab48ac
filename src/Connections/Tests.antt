-- ===== src/Connections/Tests.antt =====
-- An injector in memory, with which redis is connected.
use zombiies_api.Common.{
  ℕ, zero, suc, ◌≡◌, refl, none, some, List, [], ◌∷◌, ◌++◌, Result, ok, err, plain_error,
  type_error, ◌>>=◌,
}
use zombiies_api.Filter.Texts.{Text}
use zombiies_api.Connections.{
  Token, class_of, named, Value, connection, options_factory, other, Provider, use_value,
  use_factory, use_class, DynamicModule, AsyncOptions,
}
use zombiies_api.Connections as Connections
use zombiies_api.Connections.Injected.{by_class, for_root_async-for_root}
use zombiies_api.Connections.Injector.{Injector, registered, get_all}
use zombiies_api.Connections.PubSub.{
  PubSubModuleOptions, RedisPubSub, of_clients, of_config, connected_to, connected, pub_sub_core,
  create_pub_sub_connection, for_root, for_root_async,
}
use zombiies_api.Connections.IpfsStorage.{cid_to_uri, uri_to_cid}

module _ {O K : Type 0} (instance_of : ℕ → Value O K) where
  abbrev made_by : (Token → Result (Value O K)) → List (Provider O K) → Result (Value O K)
  made_by get [] = err type_error
  made_by get (use_value t v ∷ []) = ok v
  made_by get (use_class t c ∷ []) = ok (instance_of c)
  made_by get (use_factory t inject f ∷ []) = get_all get inject >>= f
  made_by get (p ∷ q ∷ ps) = err type_error

  abbrev get_nested : ℕ → List (Provider O K) → Token → Result (Value O K)
  get_nested zero ps t = err type_error
  get_nested (suc n) ps t = made_by (get_nested n ps) (registered t ps)

  abbrev in_memory : Injector O K
  in_memory = record {
    get = get_nested;
    instance_of = instance_of;
    value_lem = λ n ps t v e. rw e refl;
    class_lem = λ n ps t c e. rw e refl;
    factory_lem = λ n ps t inject f vs e g. rw e (rw g refl);
  }

-- Redis at one url for both directions, as the configuration of class 4 gives it.
abbrev redis_options : PubSubModuleOptions
redis_options = record {
  client_options = some (record {
    pub_client_options = record { url = some 1; config = 2 };
    sub_client_options = record { url = none; config = 3 };
  });
  config = none;
}

abbrev config_service : ℕ → Value PubSubModuleOptions RedisPubSub
config_service c = options_factory (ok redis_options)

abbrev async_options : AsyncOptions PubSubModuleOptions RedisPubSub
async_options = record {
  imports = 9 ∷ [];
  inject = none;
  use_class = some 4;
  use_existing = none;
  use_factory = none;
}

abbrev redis : RedisPubSub
redis = of_clients (connected_to 1 2) (connected 3)

for_root_async-for_root_example :
    (direct async : DynamicModule PubSubModuleOptions RedisPubSub) × (for_root redis_options none
      ≡ ok direct)
    × (for_root_async async_options none ≡ ok async)
    × (get_nested config_service 3
          (direct.providers ++ [])
          (Connections.get_connection_token pub_sub_core none)
        ≡ ok (connection redis))
    × (get_nested config_service 3
          (async.providers ++ [])
          (Connections.get_connection_token pub_sub_core none)
        ≡ ok (connection redis))
for_root_async-for_root_example =
    for_root_async-for_root pub_sub_core (in_memory config_service) [] none redis_options redis
      async_options refl refl refl refl refl (by_class (9 ∷ []) none 4 refl refl)

-- Options without a way to make them, and redis without options.
nothing_given :
    for_root_async (record async_options { use_class = none }) none
    ≡ err (plain_error "Invalid configuration. Must provide useFactory, useClass or useExisting")
unfolding Connections.for_root_async Connections.create_async_providers
nothing_given = refl

no_redis :
    for_root (record { client_options = none; config = none }) none
    ≡ err (plain_error "Invalid configuration. Must provider one of clientOptions, env!")
unfolding Connections.for_root
no_redis = refl

config_first :
    create_pub_sub_connection (record redis_options { config = some 5 }) ≡ ok (of_config 5)
config_first = refl

uri_and_back : (cid : Text) → uri_to_cid (cid_to_uri cid) ≡ cid
uri_and_back cid = refl
