-- ===== src/Webhook/RegistryRules.antt =====
-- The rules that the webhook of SchemaRegistry enforces.
use schema_strimzi_operator.Prelude.{
  Option, none, some, [], ◌≡◌, ◌≢◌, ◌↔◌, refl, arith, eq_iff, iff_trans, below, AtLeast,
  below-AtLeast,
}
use schema_strimzi_operator.Api.RegistryTypes.{
  auth_type_basic, auth_type_bearer, auth_type_mtls, BasicAuthConfig, BearerAuthConfig, MtlsConfig,
  AuthConfig, SchemaRegistry, SchemaRegistrySpec,
}
use schema_strimzi_operator.World.{World, IsDocumented, required, invalid_int}
use schema_strimzi_operator.Webhook.RegistryWebhook.{
  basic_errors, bearer_errors, mtls_errors, auth_errors, registry_errors,
  validate_schema_registry_spec, validate_create, validate_update, validate_delete,
}
use schema_strimzi_operator.Webhook.Aggregates.{
  aggregate-eq-nil_iff, required-append_iff, flagged-append_iff,
}

abbrev pub HasBasic : Option BasicAuthConfig → Type 0
HasBasic none = ⊥
HasBasic (some b) = b.secret_ref ≢ ""

abbrev pub HasBearer : Option BearerAuthConfig → Type 0
HasBearer none = ⊥
HasBearer (some b) = b.secret_ref ≢ ""

abbrev pub HasMtls : Option MtlsConfig → Type 0
HasMtls none = ⊥
HasMtls (some m) = m.cert_secret_ref ≢ ""

-- The section that the type of authentication calls for is there and names its secret.
pub record IsValidAuth (auth : AuthConfig) : Type 0 where
  pub basic : auth.type ≡ auth_type_basic → HasBasic auth.basic_auth
  pub bearer : auth.type ≡ auth_type_bearer → HasBearer auth.bearer_auth
  pub mtls : auth.type ≡ auth_type_mtls → HasMtls auth.mtls

abbrev pub IsValidOptional : Option AuthConfig → Type 0
IsValidOptional none = Unit
IsValidOptional (some auth) = IsValidAuth auth

pub record IsValidRegistry (spec : SchemaRegistrySpec) : Type 0 where
  pub url : spec.url ≢ ""
  pub timeout : AtLeast 0 spec.timeout
  pub auth : IsValidOptional spec.auth

basic_errors-eq-nil_iff : (o : Option BasicAuthConfig) → (basic_errors o ≡ []) ↔ HasBasic o
unfolding basic_errors
basic_errors-eq-nil_iff none = (λ h. ground arith, λ h. absurd h)
basic_errors-eq-nil_iff (some b) =
    (λ h. ground (arith, eq_iff b.secret_ref ""), λ h. ground (arith, eq_iff b.secret_ref ""))

bearer_errors-eq-nil_iff : (o : Option BearerAuthConfig) → (bearer_errors o ≡ []) ↔ HasBearer o
unfolding bearer_errors
bearer_errors-eq-nil_iff none = (λ h. ground arith, λ h. absurd h)
bearer_errors-eq-nil_iff (some b) =
    (λ h. ground (arith, eq_iff b.secret_ref ""), λ h. ground (arith, eq_iff b.secret_ref ""))

mtls_errors-eq-nil_iff : (o : Option MtlsConfig) → (mtls_errors o ≡ []) ↔ HasMtls o
unfolding mtls_errors
mtls_errors-eq-nil_iff none = (λ h. ground arith, λ h. absurd h)
mtls_errors-eq-nil_iff (some m) = (
  λ h. ground (arith, eq_iff m.cert_secret_ref ""),
  λ h. ground (arith, eq_iff m.cert_secret_ref ""),
)

module _ (auth : AuthConfig) where
  auth_errors_sound : auth_errors (some auth) ≡ [] → IsValidAuth auth
  unfolding auth_errors
  auth_errors_sound h = ground (
    arith,
    eq_iff auth.type auth_type_basic,
    eq_iff auth.type auth_type_bearer,
    eq_iff auth.type auth_type_mtls,
    basic_errors-eq-nil_iff auth.basic_auth,
    bearer_errors-eq-nil_iff auth.bearer_auth,
    mtls_errors-eq-nil_iff auth.mtls,
    eq_iff auth_type_basic auth_type_bearer,
    eq_iff auth_type_basic auth_type_mtls,
    eq_iff auth_type_bearer auth_type_mtls,
  )

  auth_errors_complete : IsValidAuth auth → auth_errors (some auth) ≡ []
  unfolding auth_errors
  auth_errors_complete v = ground (
    arith,
    eq_iff auth.type auth_type_basic,
    eq_iff auth.type auth_type_bearer,
    eq_iff auth.type auth_type_mtls,
    basic_errors-eq-nil_iff auth.basic_auth,
    bearer_errors-eq-nil_iff auth.bearer_auth,
    mtls_errors-eq-nil_iff auth.mtls,
  )

auth_errors-eq-nil_iff : (auth : Option AuthConfig) → (auth_errors auth ≡ []) ↔ IsValidOptional auth
unfolding auth_errors
auth_errors-eq-nil_iff none = (λ h. tt, λ h. refl)
auth_errors-eq-nil_iff (some auth) = (auth_errors_sound auth, auth_errors_complete auth)

registry_errors-eq-nil_iff :
    (spec : SchemaRegistrySpec) → (registry_errors spec ≡ []) ↔ IsValidRegistry spec
unfolding registry_errors
registry_errors-eq-nil_iff spec =
    let (sound, complete) =
      required-append_iff spec.url (required "spec.url" "url must not be empty") _ (
        flagged-append_iff (below spec.timeout 0)
          (invalid_int "spec.timeout" spec.timeout "timeout must be >= 0") _
          (auth_errors-eq-nil_iff spec.auth)) in
    (
      λ h. record {
        url = (sound h).0;
        timeout = (below-AtLeast spec.timeout 0).0 (sound h).1.0;
        auth = (sound h).1.1;
      },
      λ v. complete (v.url, ((below-AtLeast spec.timeout 0).1 v.timeout, v.auth)),
    )

pub validate_schema_registry_spec-eq-nil_iff :
    (w : World)
    → IsDocumented w
    → (sr : SchemaRegistry) → (validate_schema_registry_spec w sr ≡ none) ↔ IsValidRegistry sr.spec
unfolding validate_schema_registry_spec
validate_schema_registry_spec-eq-nil_iff w d sr =
    iff_trans (aggregate-eq-nil_iff w d (registry_errors sr.spec))
      (registry_errors-eq-nil_iff sr.spec)

-- The webhook accepts the creation of a registry, and an update to it whatever it was before, exactly
-- when its URL is not empty, its timeout is not negative, and the section that its type of
-- authentication calls for is there and names its secret. It accepts every deletion.
pub registry_webhook-eq-nil_iff :
    (w : World)
    → IsDocumented w
    → (old new : SchemaRegistry)
    → ((validate_create w new ≡ none) ↔ IsValidRegistry new.spec)
      × ((validate_update w old new ≡ none) ↔ IsValidRegistry new.spec)
      × (validate_delete w old ≡ none)
unfolding validate_create validate_update validate_delete
registry_webhook-eq-nil_iff w d old new = (
  validate_schema_registry_spec-eq-nil_iff w d new,
  validate_schema_registry_spec-eq-nil_iff w d new,
  refl,
)
