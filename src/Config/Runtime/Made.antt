-- ===== src/Config/Runtime/Made.antt =====
-- runtime/config/config.hpp: RuntimeConfig is made exactly for the consistent configurations.
use cppservicelib.Prelude.{
  ◌≡◌, refl, sym, subst, ◌∙◌, true, List, [], ◌∷◌, Option, some, inl, inr, ◌==◌, Option-cases, All,
  arith,
}
use cppservicelib.Dict.{Key, Dict, find}
use cppservicelib.Config.Runtime.{
  stream, service, endpoint, data_connector, pool, type, duplicate_name, duplicate_link, ok,
  DataConnectorConfig, EndpointConfig, LinkId, Config, is_valid_link, index_by, index_both,
  index_links, RuntimeConfig, check_endpoint, check_endpoints, indices, make_runtime_config,
  get_stream_config_by_name, get_stream_config_by_id, get_service_config_by_name,
  get_service_config_by_id, get_endpoint_config_by_id, get_data_connector_by_id, get_pool_by_name,
  get_type_by_name, get_link,
}
use cppservicelib.Config.Runtime.Lookups.{
  first_with, Distinct, ok_injective, bind-ok, find-index_by, index_by-Distinct, Distinct-index_by,
  none_in,
}
use cppservicelib.Config.Runtime.Consistency.{both-ok, both-made, index_links-ok, index_links-made}

module _ {Name Number : Type 0} ⦃names : Key Name⦄ ⦃ids : Key Number⦄
    ⦃link_ids : Key (LinkId Number)⦄ where
  -- The data connector of an endpoint is there, and has the type of the endpoint.
  abbrev pub Refers :
      (Number → Option (DataConnectorConfig Name Number)) → EndpointConfig Name Number → Type 0
  Refers connector e =
      (d : DataConnectorConfig Name Number) × (connector e.id_data_connector ≡ some d)
      × ((d.type == e.type) ≡ true)

  check_endpoint-ok :
      (cs : Dict Number (DataConnectorConfig Name Number)) (e : EndpointConfig Name Number)
      (u : Unit {0})
      → check_endpoint cs e ≡ ok u
      → Refers (λ k. find k cs) e
  unfolding check_endpoint
  check_endpoint-ok cs e u h = elim (Option-cases (find e.id_data_connector cs)) [
    | inl n ↦ absurd (ground (arith, rw (n, check_endpoint) at h))
    | inr (d, s) ↦ (d, s, ground (arith, rw (s, check_endpoint) at h))
  ]

  check_endpoint-made :
      (cs : Dict Number (DataConnectorConfig Name Number)) (e : EndpointConfig Name Number)
      → Refers (λ k. find k cs) e
      → check_endpoint cs e ≡ ok tt
  unfolding check_endpoint
  check_endpoint-made cs e (d, s, t) = rw (s, t, check_endpoint) refl

  check_endpoints-ok :
      (cs : Dict Number (DataConnectorConfig Name Number)) (es : List (EndpointConfig Name Number))
      (u : Unit {0})
      → check_endpoints cs es ≡ ok u
      → All (Refers (λ k. find k cs)) es
  unfolding check_endpoints
  check_endpoints-ok cs [] u h = tt
  check_endpoints-ok cs (e ∷ es) u h =
      let (w, first, rest) = bind-ok (check_endpoint cs e) (λ _. check_endpoints cs es) u h in
      (check_endpoint-ok cs e w first, check_endpoints-ok cs es u rest)

  check_endpoints-made :
      (cs : Dict Number (DataConnectorConfig Name Number)) (es : List (EndpointConfig Name Number))
      → All (Refers (λ k. find k cs)) es
      → check_endpoints cs es ≡ ok tt
  unfolding check_endpoints
  check_endpoints-made cs [] a = refl
  check_endpoints-made cs (e ∷ es) a =
      rw (check_endpoint-made cs e a.0) (check_endpoints-made cs es a.1)

  -- Names and ids are unique in each part, each endpoint refers to a data connector of its type, and a
  -- link has exactly one call semantics if it has any.
  pub record IsConsistent (c : Config Name Number) : Type 0 where
    pub streams : Distinct (λ v. v.name) c.streams × Distinct (λ v. v.id) c.streams
    pub services : Distinct (λ v. v.name) c.services × Distinct (λ v. v.id) c.services
    pub endpoints : Distinct (λ v. v.name) c.endpoints × Distinct (λ v. v.id) c.endpoints
    pub connectors :
        Distinct (λ v. v.name) c.data_connectors × Distinct (λ v. v.id) c.data_connectors
    pub refers : All (Refers (λ k. first_with (λ v. v.id) k c.data_connectors)) c.endpoints
    pub pools : Distinct (λ v. v.name) c.pools
    pub types : Distinct (λ v. v.name) c.types
    pub valid_links : All (λ l. is_valid_link l.call_semantics ≡ true) c.links
    pub links : Distinct (λ l. l.link) c.links

  -- Each getter answers with the value of the configuration that has the name or the id.
  pub record Answers (c : Config Name Number) (r : RuntimeConfig Name Number) : Type 0 where
    pub stream_by_name :
        (k : Name) → get_stream_config_by_name k r ≡ first_with (λ v. v.name) k c.streams
    pub stream_by_id :
        (k : Number) → get_stream_config_by_id k r ≡ first_with (λ v. v.id) k c.streams
    pub service_by_name :
        (k : Name) → get_service_config_by_name k r ≡ first_with (λ v. v.name) k c.services
    pub service_by_id :
        (k : Number) → get_service_config_by_id k r ≡ first_with (λ v. v.id) k c.services
    pub endpoint_by_id :
        (k : Number) → get_endpoint_config_by_id k r ≡ first_with (λ v. v.id) k c.endpoints
    pub connector_by_id :
        (k : Number) → get_data_connector_by_id k r ≡ first_with (λ v. v.id) k c.data_connectors
    pub pool_by_name : (k : Name) → get_pool_by_name k r ≡ first_with (λ v. v.name) k c.pools
    pub type_by_name : (k : Name) → get_type_by_name k r ≡ first_with (λ v. v.name) k c.types
    pub link :
        (from to : Number)
        → get_link from to r ≡ first_with (λ l. l.link) (record { from = from; to = to }) c.links

  Refers-congr :
      (p q : Number → Option (DataConnectorConfig Name Number))
      → ((i : Number) → p i ≡ q i)
      → (es : List (EndpointConfig Name Number)) → All (Refers p) es
      → All (Refers q) es
  Refers-congr p q same [] a = tt
  Refers-congr p q same (e ∷ es) (r, a) =
      ((r.0, sym (same e.id_data_connector) ∙ r.1, r.2), Refers-congr p q same es a)

  -- Every consistent configuration gets its RuntimeConfig: the constructor does not throw.
  pub IsConsistent-make :
      (c : Config Name Number)
      → IsConsistent c
      → (r : RuntimeConfig Name Number) × (make_runtime_config c ≡ ok r)
  unfolding make_runtime_config
  IsConsistent-make c k =
      let (streams, a) =
        both-made stream (λ v. v.name) (λ v. v.id) c.streams k.streams.0 k.streams.1 in
      let (services, b) =
        both-made service (λ v. v.name) (λ v. v.id) c.services k.services.0 k.services.1 in
      let (endpoints, d) =
        both-made endpoint (λ v. v.name) (λ v. v.id) c.endpoints k.endpoints.0 k.endpoints.1 in
      let (connectors, e) =
        both-made data_connector (λ v. v.name) (λ v. v.id) c.data_connectors k.connectors.0
          k.connectors.1 in
      let found =
        (both-ok data_connector (λ v. v.name) (λ v. v.id) c.data_connectors connectors e).2 in
      let checked =
        check_endpoints-made connectors.1 c.endpoints
          (Refers-congr _ _ (λ i. sym (found i)) c.endpoints k.refers) in
      let (pools, f) =
        Distinct-index_by (duplicate_name pool) (λ v. v.name) c.pools [] k.pools
          (none_in _ c.pools) in
      let (types, g) =
        Distinct-index_by (duplicate_name type) (λ v. v.name) c.types [] k.types
          (none_in _ c.types) in
      let (links, h) =
        Distinct-index_by duplicate_link (λ l. l.link) c.links [] k.links (none_in _ c.links) in
      (
        indices streams services endpoints connectors pools types links,
        rw (a, b, d, e, checked, f, g, index_links-made c.links [] links k.valid_links h) refl,
      )

  -- Where RuntimeConfig is made, the configuration is consistent, and each getter answers with the value
  -- of the configuration that has the name, the id or the ends, or with none.
  pub make-IsConsistent :
      (c : Config Name Number) (r : RuntimeConfig Name Number)
      → make_runtime_config c ≡ ok r
      → IsConsistent c × Answers c r
  unfolding make_runtime_config find
  make-IsConsistent c r h =
      let (streams, a, h1) =
        bind-ok (index_both stream (λ v. v.name) (λ v. v.id) c.streams [] []) _ r h in
      let (services, b, h2) =
        bind-ok (index_both service (λ v. v.name) (λ v. v.id) c.services [] []) _ r h1 in
      let (endpoints, d, h3) =
        bind-ok (index_both endpoint (λ v. v.name) (λ v. v.id) c.endpoints [] []) _ r h2 in
      let (connectors, e, h4) =
        bind-ok (index_both data_connector (λ v. v.name) (λ v. v.id) c.data_connectors [] []) _ r
          h3 in
      let (u, checked, h5) = bind-ok (check_endpoints connectors.1 c.endpoints) _ r h4 in
      let (pools, f, h6) =
        bind-ok (index_by (duplicate_name pool) (λ v. v.name) c.pools []) _ r h5 in
      let (types, g, h7) =
        bind-ok (index_by (duplicate_name type) (λ v. v.name) c.types []) _ r h6 in
      let (links, l, h8) = bind-ok (index_links c.links []) _ r h7 in
      let made : indices streams services endpoints connectors pools types links ≡ r =
        ok_injective _ r h8 in
      let ((stream_names, stream_ids), s1, s2) =
        both-ok stream (λ v. v.name) (λ v. v.id) c.streams streams a in
      let ((service_names, service_ids), v1, v2) =
        both-ok service (λ v. v.name) (λ v. v.id) c.services services b in
      let ((endpoint_names, endpoint_ids), e1, e2) =
        both-ok endpoint (λ v. v.name) (λ v. v.id) c.endpoints endpoints d in
      let ((connector_names, connector_ids), c1, c2) =
        both-ok data_connector (λ v. v.name) (λ v. v.id) c.data_connectors connectors e in
      let (valid, linked) = index_links-ok c.links [] links l in
      (
        record {
          streams = (stream_names, stream_ids);
          services = (service_names, service_ids);
          endpoints = (endpoint_names, endpoint_ids);
          connectors = (connector_names, connector_ids);
          refers =
              Refers-congr _ _ c2 c.endpoints
                (check_endpoints-ok connectors.1 c.endpoints u checked);
          pools = index_by-Distinct (duplicate_name pool) (λ v. v.name) c.pools [] pools f;
          types = index_by-Distinct (duplicate_name type) (λ v. v.name) c.types [] types g;
          valid_links = valid;
          links = index_by-Distinct duplicate_link (λ l. l.link) c.links [] links linked;
        },
        subst (Answers c) made (record {
          stream_by_name = s1;
          stream_by_id = s2;
          service_by_name = v1;
          service_by_id = v2;
          endpoint_by_id = e2;
          connector_by_id = c2;
          pool_by_name = find-index_by (duplicate_name pool) (λ v. v.name) c.pools [] pools f;
          type_by_name = find-index_by (duplicate_name type) (λ v. v.name) c.types [] types g;
          link = λ from to.
              find-index_by duplicate_link (λ l. l.link) c.links [] links linked
                (record { from = from; to = to });
        }),
      )
