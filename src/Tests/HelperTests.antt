-- ===== src/Tests/HelperTests.antt =====
-- The theorems about credentials, timeouts and watches at concrete objects.
use schema_strimzi_operator.Prelude.{
  List, ◌*◌, ◌⊎◌, ◌≤◌, inl, pos, true, some, none, [], ◌∷◌, ◌≡◌, ◌↔◌, refl, arith, below, All, Any,
}
use schema_strimzi_operator.Error.{ok}
use schema_strimzi_operator.Api.Meta.{entry}
use schema_strimzi_operator.Api.SchemaTypes.{Schema}
use schema_strimzi_operator.Api.RegistryTypes.{SchemaRegistry}
use schema_strimzi_operator.Api.RegistryTypes
use schema_strimzi_operator.Client.Types.{AuthConfig}
use schema_strimzi_operator.World.{World}
use schema_strimzi_operator.Controller.Effects.{key_of, second}
use schema_strimzi_operator.Controller.Helpers.{unloaded, load_auth_config, request_timeout}
use schema_strimzi_operator.Controller.Helpers.Secrets.{IsWatched, load_auth_config-IsWatched}
use schema_strimzi_operator.Controller.Helpers.Timeouts.{request_timeout_cases}
use schema_strimzi_operator.Controller.Helpers.Contents.{FromDeclaration, load_auth_config_iff}
use schema_strimzi_operator.Controller.Watches.{
  find_schemas_for_registry, find_schema_registries_for_secret,
}
use schema_strimzi_operator.Controller.Watches.References.{NamesSecret}
use schema_strimzi_operator.Controller.Watches.Requests.{
  Refers, watches_iff, find_schemas_for_registry_misses,
}
use schema_strimzi_operator.Controller.SchemaController.{registry_key}
use schema_strimzi_operator.Controller.Watches.Resolution.{find_schemas_for_registry-registry_key}
use schema_strimzi_operator.Tests.Sample.{world, schema, registry, auth, meta}

auth-loaded : (load_auth_config world registry []).0 ≡ ok auth
unfolding load_auth_config entry
auth-loaded = refl

abbrev bearer : RegistryTypes.AuthConfig
bearer = record {
  type = "BEARER";
  basic_auth = none;
  bearer_auth = some (record { secret_ref = "credentials" });
  mtls = none;
}

abbrev bearer_registry : SchemaRegistry
bearer_registry = record registry { spec = record registry.spec { auth = some bearer } }

-- The sample secret has no entry `token`.
abbrev token : AuthConfig
token = unloaded "BEARER"

bearer-loaded : (load_auth_config world bearer_registry []).0 ≡ ok token
unfolding load_auth_config entry
bearer-loaded = refl

load_auth_config-IsWatched_example : All (IsWatched registry) (load_auth_config world registry []).1
load_auth_config-IsWatched_example = load_auth_config-IsWatched registry world [] tt

abbrev mtls : RegistryTypes.AuthConfig
mtls = record {
  type = "MTLS";
  basic_auth = none;
  bearer_auth = none;
  mtls = some (record { cert_secret_ref = "client"; ca_secret_ref = "authority" });
}

abbrev mtls_registry : SchemaRegistry
mtls_registry = record registry { spec = record registry.spec { auth = some mtls } }

-- Every secret has a certificate, a key and an authority.
abbrev certified : World
certified = record world {
  get_secret = λ t key. ok (record {
    name = key.name;
    namespace = key.namespace;
    entries = ("tls.crt", "cert") ∷ ("tls.key", "key") ∷ ("ca.crt", "ca") ∷ [];
  });
}

abbrev certificates : AuthConfig
certificates = record (unloaded "MTLS") {
  client_cert = some (record { cert_pem = "cert"; key_pem = "key" });
  ca_cert = some (record { appended = "ca" ∷ [] });
}

certificates-loaded : (load_auth_config certified mtls_registry []).0 ≡ ok certificates
unfolding load_auth_config entry
certificates-loaded = refl

load_auth_config_iff_example :
    ((load_auth_config certified mtls_registry []).0 ≡ ok certificates)
    ↔ FromDeclaration certified "kafka" [] certificates (some mtls)
load_auth_config_iff_example = load_auth_config_iff certified mtls_registry [] certificates

request_timeout_cases_example :
    ((9223372037 ≤ 9223372036) × (request_timeout (pos 9223372037) ≡ pos (9223372037 * second)))
    ⊎ ((9223372037 ≤ 9223372037) × (below (request_timeout (pos 9223372037)) 0 ≡ true))
request_timeout_cases_example = request_timeout_cases 9223372037 (omega arith)

watches_iff_example :
    (Any (λ k. k ≡ key_of schema.metadata) (find_schemas_for_registry world registry.metadata []).0
      ↔ Any (λ s. Refers "registry" s × (key_of s.metadata ≡ key_of schema.metadata)) (schema ∷ []))
    × (Any
          (λ k. k ≡ key_of schema.metadata)
          (find_schema_registries_for_secret world (meta "credentials" []) []).0
        ↔ Any
            (λ sr. NamesSecret "credentials" sr × (key_of sr.metadata ≡ key_of schema.metadata))
            (registry ∷ []))
watches_iff_example =
    watches_iff world [] registry.metadata (meta "credentials" []) (schema ∷ []) (registry ∷ [])
      (key_of schema.metadata) refl refl

-- A schema of another namespace that refers to the registry by its namespace.
abbrev remote : Schema
remote = record schema {
  metadata = record schema.metadata { namespace = "apps" };
  spec = record schema.spec { registry_ref = record { name = "registry"; namespace = "kafka" } };
}

scoped :
    (items : List Schema)
    → world.list_schemas [] "kafka" ≡ ok items
    → All (λ x. x.metadata.namespace ≡ "kafka") items
scoped [] e = tt
scoped (s ∷ rest) e = ground arith

find_schemas_for_registry_misses_example :
    ¬ Any (λ k. k ≡ key_of remote.metadata) (find_schemas_for_registry world registry.metadata []).0
find_schemas_for_registry_misses_example =
    find_schemas_for_registry_misses world [] registry.metadata remote scoped λ e. cc e

schema-refers : registry_key schema ≡ key_of registry.metadata
unfolding registry_key
schema-refers = refl

find_schemas_for_registry-registry_key_example :
    Any (λ k. k ≡ key_of schema.metadata) (find_schemas_for_registry world registry.metadata []).0
find_schemas_for_registry-registry_key_example =
    find_schemas_for_registry-registry_key world [] registry.metadata schema (schema ∷ [])
      schema-refers refl (inl refl)
