-- ===== src/Webhook/RegistryWebhook.antt =====
-- internal/webhook/v1alpha1/schemaregistry_webhook.go.
use schema_strimzi_operator.Prelude.{
  Option, none, some, List, [], ◌∷◌, ◌++◌, ◌==◌, string_eq, below, if◌then◌else◌,
}
use schema_strimzi_operator.Error.{Error}
use schema_strimzi_operator.Api.RegistryTypes.{
  auth_type_basic, auth_type_bearer, auth_type_mtls, BasicAuthConfig, BearerAuthConfig, MtlsConfig,
  AuthConfig, SchemaRegistry, SchemaRegistrySpec,
}
use schema_strimzi_operator.World.{World, FieldError, required, invalid_int}
use schema_strimzi_operator.Webhook.SchemaWebhook.{aggregate}

unfoldable pub basic_errors : Option BasicAuthConfig → List FieldError
basic_errors none =
    required "spec.auth.basicAuth" "basicAuth must be set when auth type is BASIC" ∷ []
basic_errors (some basic) =
    if basic.secret_ref == ""
    then required "spec.auth.basicAuth.secretRef" "basicAuth.secretRef must not be empty" ∷ []
    else []

unfoldable pub bearer_errors : Option BearerAuthConfig → List FieldError
bearer_errors none =
    required "spec.auth.bearerAuth" "bearerAuth must be set when auth type is BEARER" ∷ []
bearer_errors (some bearer) =
    if bearer.secret_ref == ""
    then required "spec.auth.bearerAuth.secretRef" "bearerAuth.secretRef must not be empty" ∷ []
    else []

unfoldable pub mtls_errors : Option MtlsConfig → List FieldError
mtls_errors none = required "spec.auth.mtls" "mtls must be set when auth type is MTLS" ∷ []
mtls_errors (some mtls) =
    if mtls.cert_secret_ref == ""
    then required "spec.auth.mtls.certSecretRef" "mtls.certSecretRef must not be empty" ∷ []
    else []

unfoldable pub auth_errors : Option AuthConfig → List FieldError
unfolding basic_errors bearer_errors mtls_errors
auth_errors none = []
auth_errors (some auth) =
    if auth.type == auth_type_basic
    then basic_errors auth.basic_auth
    else if auth.type == auth_type_bearer
    then bearer_errors auth.bearer_auth
    else if auth.type == auth_type_mtls
    then mtls_errors auth.mtls
    else []

unfoldable pub registry_errors : SchemaRegistrySpec → List FieldError
unfolding auth_errors
registry_errors spec =
    (if spec.url == "" then required "spec.url" "url must not be empty" ∷ [] else [])
    ++ ((if below spec.timeout 0
          then invalid_int "spec.timeout" spec.timeout "timeout must be >= 0" ∷ []
          else [])
        ++ auth_errors spec.auth)

module _ (w : World) where
  unfoldable pub validate_schema_registry_spec : SchemaRegistry → Option Error
  unfolding registry_errors aggregate
  validate_schema_registry_spec sr = aggregate w (registry_errors sr.spec)

  unfoldable pub validate_create : SchemaRegistry → Option Error
  unfolding validate_schema_registry_spec
  validate_create sr = validate_schema_registry_spec sr

  unfoldable pub validate_update : SchemaRegistry → SchemaRegistry → Option Error
  unfolding validate_schema_registry_spec
  validate_update old new = validate_schema_registry_spec new

  unfoldable pub validate_delete : SchemaRegistry → Option Error
  validate_delete sr = none
