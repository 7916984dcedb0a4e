-- ===== src/Config/Runtime.antt =====
-- runtime/config/config.hpp and runtime/config/link_types.hpp: RuntimeConfig, the indices over a
-- configuration. Names and ids are any types with a hash and an equality, and of each part of the
-- configuration the model has what the indices read.
pub mod Lookups
pub mod Consistency
pub mod Made
use cppservicelib.Prelude.{
  ℕ, ◌+◌, Bool, true, false, not, ◌&&◌, List, [], ◌∷◌, Option, none, some, ◌==◌, if◌then◌else◌,
  is_some, length,
}
use cppservicelib.Dict.{Key, Dict, find, contains, emplace}

pub data Kind : Type 0 where
  stream service endpoint data_connector pool type : Kind

-- The exceptions of the constructor, by what their messages say.
pub data Error : Type 0 where
  duplicate_name duplicate_id : Kind → Error
  duplicate_link unknown_data_connector type_mismatch call_semantics : Error

pub data Result {ℓ} (A : Type ℓ) : Type ℓ where
  ok : A → Result A
  err : Error → Result A

infixl 5 ◌>>=◌
abbrev pub ◌>>=◌ {ℓ κ} : {A : Type ℓ} {B : Type κ} → Result A → (A → Result B) → Result B
ok a >>= f = f a
err e >>= f = err e

pub record StreamConfig (Name Number : Type 0) : Type 0 where
  pub name : Name
  pub id : Number

pub record ServiceConfig (Name Number : Type 0) : Type 0 where
  pub name : Name
  pub id : Number

-- Types of data connectors are numbers, as in the enumeration.
pub record DataConnectorConfig (Name Number : Type 0) : Type 0 where
  pub name : Name
  pub id : Number
  pub type : ℕ

pub record EndpointConfig (Name Number : Type 0) : Type 0 where
  pub name : Name
  pub id : Number
  pub id_data_connector : Number
  pub type : ℕ

pub record PoolConfig (Name : Type 0) : Type 0 where
  pub name : Name
  pub executors_count : ℕ

pub record TypeConfig (Name : Type 0) : Type 0 where
  pub name : Name

-- Which of the four semantics of a call have a value.
pub record CallSemanticsGroup : Type 0 where
  pub function_call : Bool
  pub task_pool : Bool
  pub priority_task_pool : Bool
  pub parallel_call : Bool

pub record LinkId (Number : Type 0) : Type 0 where
  pub from : Number
  pub to : Number

pub record LinkConfig (Number : Type 0) : Type 0 where
  pub link : LinkId Number
  pub call_semantics : Option CallSemanticsGroup

-- `IConfig`
pub record Config (Name Number : Type 0) : Type 0 where
  pub services : List (ServiceConfig Name Number)
  pub streams : List (StreamConfig Name Number)
  pub data_connectors : List (DataConnectorConfig Name Number)
  pub endpoints : List (EndpointConfig Name Number)
  pub pools : List (PoolConfig Name)
  pub links : List (LinkConfig Number)
  pub types : List (TypeConfig Name)

abbrev pub one : Bool → ℕ
one true = 1
one false = 0

-- `CallSemanticsGroup::Validate` and `LinkConfig::Validate`
unfoldable pub is_valid_group : CallSemanticsGroup → Bool
is_valid_group g =
    one g.function_call + one g.task_pool + one g.priority_task_pool + one g.parallel_call == 1

unfoldable pub is_valid_link : Option CallSemanticsGroup → Bool
unfolding is_valid_group
is_valid_link none = true
is_valid_link (some g) = is_valid_group g

-- `InsertUnique`
unfoldable pub insert_unique :
    {K V : Type 0} ⦃key : Key K⦄ → Error → K → V → Dict K V → Result (Dict K V)
insert_unique e k v d = if contains k d then err e else ok (emplace k v d)

-- A loop over a part that has one index.
unfoldable pub index_by :
    {K V : Type 0} ⦃key : Key K⦄ → Error → (V → K) → List V → Dict K V → Result (Dict K V)
index_by e key_of [] d = ok d
index_by e key_of (v ∷ vs) d = insert_unique e (key_of v) v d >>= λ next. index_by e key_of vs next

-- A loop over a part with an index by name and one by id.
unfoldable pub index_both :
    {Name Number V : Type 0} ⦃names : Key Name⦄ ⦃ids : Key Number⦄
    → Kind
    → (V → Name)
    → (V → Number)
    → List V
    → Dict Name V
    → Dict Number V
    → Result (Dict Name V × Dict Number V)
index_both kind name_of id_of [] by_name by_id = ok (by_name, by_id)
index_both kind name_of id_of (v ∷ vs) by_name by_id =
    insert_unique (duplicate_name kind) (name_of v) v by_name >>= λ next_by_name.
    insert_unique (duplicate_id kind) (id_of v) v by_id >>= λ next_by_id.
    index_both kind name_of id_of vs next_by_name next_by_id

unfoldable pub index_links :
    {Number : Type 0} ⦃link_ids : Key (LinkId Number)⦄
    → List (LinkConfig Number)
    → Dict (LinkId Number) (LinkConfig Number)
    → Result (Dict (LinkId Number) (LinkConfig Number))
index_links [] d = ok d
index_links (l ∷ ls) d =
    if not (is_valid_link l.call_semantics)
    then err call_semantics
    else (insert_unique duplicate_link l.link l d >>= λ next. index_links ls next)

pub record RuntimeConfig (Name Number : Type 0) : Type 0 where
  pub streams_by_name : Dict Name (StreamConfig Name Number)
  pub streams_by_id : Dict Number (StreamConfig Name Number)
  pub services_by_name : Dict Name (ServiceConfig Name Number)
  pub services_by_id : Dict Number (ServiceConfig Name Number)
  pub endpoints_by_name : Dict Name (EndpointConfig Name Number)
  pub endpoints_by_id : Dict Number (EndpointConfig Name Number)
  pub data_connectors_by_name : Dict Name (DataConnectorConfig Name Number)
  pub data_connectors_by_id : Dict Number (DataConnectorConfig Name Number)
  pub pool_by_name : Dict Name (PoolConfig Name)
  pub types_by_name : Dict Name (TypeConfig Name)
  pub links_by_id : Dict (LinkId Number) (LinkConfig Number)

module _ {Name Number : Type 0} ⦃names : Key Name⦄ ⦃ids : Key Number⦄
    ⦃link_ids : Key (LinkId Number)⦄ where
  -- For what the index of the data connectors finds.
  abbrev pub matches_type : ℕ → Option (DataConnectorConfig Name Number) → Result (Unit {0})
  matches_type wanted none = err unknown_data_connector
  matches_type wanted (some c) = if not (c.type == wanted) then err type_mismatch else ok tt

  unfoldable pub check_endpoint :
      Dict Number (DataConnectorConfig Name Number) → EndpointConfig Name Number → Result (Unit {0})
  check_endpoint connectors e = matches_type e.type (find e.id_data_connector connectors)

  -- The loop over the endpoints once the data connectors have their index.
  unfoldable pub check_endpoints :
      Dict Number (DataConnectorConfig Name Number)
      → List (EndpointConfig Name Number)
      → Result (Unit {0})
  check_endpoints connectors [] = ok tt
  check_endpoints connectors (e ∷ es) =
      check_endpoint connectors e >>= λ _. check_endpoints connectors es

  abbrev pub indices :
      Dict Name (StreamConfig Name Number) × Dict Number (StreamConfig Name Number)
      → Dict Name (ServiceConfig Name Number) × Dict Number (ServiceConfig Name Number)
      → Dict Name (EndpointConfig Name Number) × Dict Number (EndpointConfig Name Number)
      → Dict Name (DataConnectorConfig Name Number) × Dict Number (DataConnectorConfig Name Number)
      → Dict Name (PoolConfig Name)
      → Dict Name (TypeConfig Name)
      → Dict (LinkId Number) (LinkConfig Number)
      → RuntimeConfig Name Number
  indices streams services endpoints connectors pools types links = record {
    streams_by_name = streams.0;
    streams_by_id = streams.1;
    services_by_name = services.0;
    services_by_id = services.1;
    endpoints_by_name = endpoints.0;
    endpoints_by_id = endpoints.1;
    data_connectors_by_name = connectors.0;
    data_connectors_by_id = connectors.1;
    pool_by_name = pools;
    types_by_name = types;
    links_by_id = links;
  }

  -- `RuntimeConfig::RuntimeConfig`
  unfoldable pub make_runtime_config : Config Name Number → Result (RuntimeConfig Name Number)
  make_runtime_config c = index_both stream (λ v. v.name) (λ v. v.id) c.streams [] [] >>= λ streams.
      index_both service (λ v. v.name) (λ v. v.id) c.services [] [] >>= λ services.
      index_both endpoint (λ v. v.name) (λ v. v.id) c.endpoints [] [] >>= λ endpoints.
      index_both data_connector (λ v. v.name) (λ v. v.id) c.data_connectors [] [] >>= λ connectors.
      check_endpoints connectors.1 c.endpoints >>= λ _.
      index_by (duplicate_name pool) (λ v. v.name) c.pools [] >>= λ pools.
      index_by (duplicate_name type) (λ v. v.name) c.types [] >>= λ types.
      index_links c.links [] >>= λ links.
      ok (indices streams services endpoints connectors pools types links)

  -- `GetStreamConfigByName` to `GetLink`
  abbrev pub get_stream_config_by_name :
      Name → RuntimeConfig Name Number → Option (StreamConfig Name Number)
  get_stream_config_by_name k r = find k r.streams_by_name

  abbrev pub get_stream_config_by_id :
      Number → RuntimeConfig Name Number → Option (StreamConfig Name Number)
  get_stream_config_by_id k r = find k r.streams_by_id

  abbrev pub get_service_config_by_name :
      Name → RuntimeConfig Name Number → Option (ServiceConfig Name Number)
  get_service_config_by_name k r = find k r.services_by_name

  abbrev pub get_service_config_by_id :
      Number → RuntimeConfig Name Number → Option (ServiceConfig Name Number)
  get_service_config_by_id k r = find k r.services_by_id

  abbrev pub get_endpoint_config_by_id :
      Number → RuntimeConfig Name Number → Option (EndpointConfig Name Number)
  get_endpoint_config_by_id k r = find k r.endpoints_by_id

  abbrev pub get_data_connector_by_id :
      Number → RuntimeConfig Name Number → Option (DataConnectorConfig Name Number)
  get_data_connector_by_id k r = find k r.data_connectors_by_id

  abbrev pub get_pool_by_name : Name → RuntimeConfig Name Number → Option (PoolConfig Name)
  get_pool_by_name k r = find k r.pool_by_name

  abbrev pub get_type_by_name : Name → RuntimeConfig Name Number → Option (TypeConfig Name)
  get_type_by_name k r = find k r.types_by_name

  abbrev pub get_link : Number → Number → RuntimeConfig Name Number → Option (LinkConfig Number)
  get_link from to r = find (record { from = from; to = to }) r.links_by_id

abbrev pub only_value : {K V : Type 0} → Dict K V → Option V
only_value [] = none
only_value (e ∷ []) = some e.1
only_value (e ∷ f ∷ d) = none

-- `GetOnlyServiceConfig`
abbrev pub get_only_service_config :
    {Name Number : Type 0} → RuntimeConfig Name Number → Option (ServiceConfig Name Number)
get_only_service_config r = only_value r.services_by_id
