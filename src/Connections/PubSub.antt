-- ===== src/Connections/PubSub.antt =====
-- src/lib/pub-sub: the connection to redis and its module.
use zombiies_api.Common.{ℕ, Option, none, some, Result, ok, err, plain_error, List}
use zombiies_api.Filter.Texts.{Text, codes}
use zombiies_api.Connections.{Core, DynamicModule, Provider, AsyncOptions}
use zombiies_api.Connections as Connections

-- A url, and the other options.
pub record IoRedisOptions : Type 0 where
  pub url : Option ℕ
  pub config : ℕ

pub data Redis : Type 0 where
  connected_to : ℕ → ℕ → Redis
  connected : ℕ → Redis

pub data RedisPubSub : Type 0 where
  of_config : ℕ → RedisPubSub
  of_clients : Redis → Redis → RedisPubSub

pub record ClientOptions : Type 0 where
  pub pub_client_options : IoRedisOptions
  pub sub_client_options : IoRedisOptions

pub record PubSubModuleOptions : Type 0 where
  pub client_options : Option ClientOptions
  pub config : Option ℕ

abbrev pub create_redis_connection : IoRedisOptions → Redis
create_redis_connection o = elim o.url [
  | none ↦ connected o.config
  | some url ↦ connected_to url o.config
]

abbrev pub create_pub_sub_connection : PubSubModuleOptions → Result RedisPubSub
create_pub_sub_connection o = elim o.config [
  | some config ↦ ok (of_config config)
  | none ↦ elim o.client_options [
    | none ↦ err (plain_error "Invalid configuration. Must provider one of clientOptions, env!")
    | some c ↦ ok (
        of_clients (create_redis_connection c.pub_client_options)
          (create_redis_connection c.sub_client_options))
  ]
]

abbrev pub pub_sub_core : Core PubSubModuleOptions RedisPubSub
pub_sub_core = record {
  default_connection = codes "default";
  connection_token = codes "PubSubModuleConnectionToken";
  options_token = codes "PubSubModuleOptionsToken";
  create_connection = create_pub_sub_connection;
}

abbrev pub for_root :
    PubSubModuleOptions → Option Text → Result (DynamicModule PubSubModuleOptions RedisPubSub)
for_root = Connections.for_root pub_sub_core

abbrev pub create_async_options_provider :
    AsyncOptions PubSubModuleOptions RedisPubSub
    → Option Text
    → Result (Provider PubSubModuleOptions RedisPubSub)
create_async_options_provider = Connections.create_async_options_provider pub_sub_core

abbrev pub create_async_providers :
    AsyncOptions PubSubModuleOptions RedisPubSub
    → Option Text
    → Result (List (Provider PubSubModuleOptions RedisPubSub))
create_async_providers = Connections.create_async_providers pub_sub_core

abbrev pub for_root_async :
    AsyncOptions PubSubModuleOptions RedisPubSub
    → Option Text
    → Result (DynamicModule PubSubModuleOptions RedisPubSub)
for_root_async = Connections.for_root_async pub_sub_core
