-- ===== src/Controller/Watches.antt =====
-- The maps from a changed object to the resources that are reconciled because of it. A list call
-- that fails gives no requests.
pub mod References
pub mod Requests
pub mod Resolution
use schema_strimzi_operator.Prelude.{
  String, Bool, false, Option, none, some, List, [], ◌∷◌, ◌==◌, string_eq, ◌||◌, if◌then◌else◌,
}
use schema_strimzi_operator.Api.Meta.{ObjectKey, ObjectMeta}
use schema_strimzi_operator.Api.SchemaTypes.{Schema}
use schema_strimzi_operator.Api.RegistryTypes.{
  auth_type_basic, auth_type_bearer, auth_type_mtls, BasicAuthConfig, BearerAuthConfig, MtlsConfig,
  AuthConfig, SchemaRegistry,
}
use schema_strimzi_operator.World.{World}
use schema_strimzi_operator.Exec.{Run, finish, give, perform, check, pure, ◌>>=◌}
use schema_strimzi_operator.Controller.Effects.{effects, key_of, list_schemas, list_registries}

-- The loop over the schemas of the registry's namespace.
unfoldable pub schemas_for : String → List Schema → List ObjectKey
schemas_for registry_name [] = []
schemas_for registry_name (s ∷ rest) =
    if s.spec.registry_ref.name == registry_name
    then key_of s.metadata ∷ schemas_for registry_name rest
    else schemas_for registry_name rest

unfoldable pub basic_references : Option BasicAuthConfig → String → Bool
basic_references none name = false
basic_references (some basic) name = basic.secret_ref == name

unfoldable pub bearer_references : Option BearerAuthConfig → String → Bool
bearer_references none name = false
bearer_references (some bearer) name = bearer.secret_ref == name

unfoldable pub mtls_references : Option MtlsConfig → String → Bool
mtls_references none name = false
mtls_references (some mtls) name = mtls.cert_secret_ref == name || mtls.ca_secret_ref == name

unfoldable pub auth_references : Option AuthConfig → String → Bool
unfolding basic_references bearer_references mtls_references
auth_references none name = false
auth_references (some auth) name =
    if auth.type == auth_type_basic
    then basic_references auth.basic_auth name
    else if auth.type == auth_type_bearer
    then bearer_references auth.bearer_auth name
    else if auth.type == auth_type_mtls
    then mtls_references auth.mtls name
    else false

unfoldable pub schema_registry_references_secret : SchemaRegistry → String → Bool
unfolding auth_references
schema_registry_references_secret sr name = auth_references sr.spec.auth name

-- The loop over the registries of the secret's namespace.
unfoldable pub registries_for : String → List SchemaRegistry → List ObjectKey
registries_for secret_name [] = []
registries_for secret_name (sr ∷ rest) =
    if schema_registry_references_secret sr secret_name
    then key_of sr.metadata ∷ registries_for secret_name rest
    else registries_for secret_name rest

module _ (w : World) where
  unfoldable pub find_schemas_for_registry : ObjectMeta → Run (List ObjectKey)
  unfolding effects
  find_schemas_for_registry registry = finish do
    r ← perform (list_schemas w registry.namespace)
    items ← check r (λ e. pure [])
    give (schemas_for registry.name items)

  unfoldable pub find_schema_registries_for_secret : ObjectMeta → Run (List ObjectKey)
  unfolding effects
  find_schema_registries_for_secret secret = finish do
    r ← perform (list_registries w secret.namespace)
    items ← check r (λ e. pure [])
    give (registries_for secret.name items)
