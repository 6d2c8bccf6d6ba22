-- ===== src/Controller/SchemaController/Clients.antt =====
-- Which registry the client of a schema talks to, and how.
use schema_strimzi_operator.Prelude.{
  none, [], ◌∷◌, ◌≡◌, ◌≢◌, arith, eq_iff, string_eq, ◌⊎◌, inl, inr,
}
use schema_strimzi_operator.Error.{ok, Result-cases}
use schema_strimzi_operator.Api.Meta.{ObjectKey}
use schema_strimzi_operator.Api.SchemaTypes.{Schema}
use schema_strimzi_operator.Api.RegistryTypes.{auth_type_mtls, SchemaRegistry}
use schema_strimzi_operator.Client.Types.{AuthConfig, SchemaRegistryClient}
use schema_strimzi_operator.Client.Requests.{new_client}
use schema_strimzi_operator.World.{World, Trace, got_registry}
use schema_strimzi_operator.Controller.Helpers.{load_auth_config, request_timeout}
use schema_strimzi_operator.Controller.Helpers.Credentials.{
  IsIsolated, declared_type, load_auth_config-IsIsolated,
}
use schema_strimzi_operator.Controller.SchemaController.{registry_key, build_client}

-- The client is for this registry: it has the address, the timeout and the choice to verify
-- certificates of the registry, credentials of the declared type only, and it presents a client
-- certificate and trusts an authority of its own for MTLS only.
pub record IsClientFor (sr : SchemaRegistry) (c : SchemaRegistryClient) : Type 0 where
  pub address : c.base_url ≡ sr.spec.url
  pub timeout : c.http_client.timeout ≡ request_timeout sr.spec.timeout
  pub insecure : c.http_client.tls_client_config.insecure_skip_verify ≡ sr.spec.insecure_skip_verify
  pub isolated : IsIsolated (declared_type sr) c.auth
  pub mtls :
      declared_type sr ≡ auth_type_mtls
      → (c.http_client.tls_client_config.certificates ≡ c.auth.client_cert ∷ [])
        × (c.http_client.tls_client_config.root_cas ≡ c.auth.ca_cert)
  pub no_mtls :
      declared_type sr ≢ auth_type_mtls
      → (c.http_client.tls_client_config.certificates ≡ [])
        × (c.http_client.tls_client_config.root_cas ≡ none)

new_client-IsClientFor :
    (sr : SchemaRegistry) (auth : AuthConfig) (c : SchemaRegistryClient)
    → IsIsolated (declared_type sr) auth
    → new_client sr.spec.url auth (request_timeout sr.spec.timeout) sr.spec.insecure_skip_verify
      ≡ ok c
    → IsClientFor sr c
unfolding new_client
new_client-IsClientFor sr auth c isolated made =
    let type = isolated.same_type in ground (arith, eq_iff auth.type "MTLS")

build_client-found :
    (w : World) (s : Schema) (t : Trace) (c : SchemaRegistryClient) (sr : SchemaRegistry)
    → w.get_registry t (registry_key s) ≡ ok sr
    → (build_client w s t).0 ≡ ok c
    → IsClientFor sr c
unfolding build_client
build_client-found w s t c sr found built =
    let t' : Trace = got_registry (registry_key s) (ok sr) ∷ t in
    elim (Result-cases (load_auth_config w sr t').0) [
      | inl (auth, loaded) ↦
          new_client-IsClientFor sr auth c (load_auth_config-IsIsolated w sr t' auth loaded)
            (rw (found, loaded) at built)
      | inr (e, failed) ↦ absurd (ground (arith, rw (found, failed) at built))
    ]

-- If a client is built for a schema, then the registry of the name that the schema refers to was
-- found, in the namespace that the reference gives or else in the schema's own, and the client is
-- for this registry: it has its address, its timeout and its choice to verify certificates, holds
-- credentials of the declared type only, and presents a client certificate and trusts an authority
-- of its own for MTLS only.
pub build_client-IsClientFor :
    (w : World) (s : Schema) (t : Trace) (c : SchemaRegistryClient)
    → (build_client w s t).0 ≡ ok c
    → (key : ObjectKey) × (sr : SchemaRegistry) × (w.get_registry t key ≡ ok sr)
      × (key.name ≡ s.spec.registry_ref.name)
      × (((s.spec.registry_ref.namespace ≡ "") × (key.namespace ≡ s.metadata.namespace))
          ⊎ ((s.spec.registry_ref.namespace ≢ "")
              × (key.namespace ≡ s.spec.registry_ref.namespace)))
      × IsClientFor sr c
unfolding build_client
build_client-IsClientFor w s t c built =
    let same = eq_iff s.spec.registry_ref.namespace "" in
    elim (Result-cases (w.get_registry t (registry_key s))) [
      | inl (sr, found) ↦ (
        registry_key s,
        sr,
        found,
        ground arith,
        ground (arith, same),
        build_client-found w s t c sr found built,
      )
      | inr (e, failed) ↦ absurd (ground (arith, rw failed at built))
    ]
