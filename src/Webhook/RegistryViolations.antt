-- ===== src/Webhook/RegistryViolations.antt =====
-- Which errors the webhook of SchemaRegistry reports, and where.
use schema_strimzi_operator.Prelude.{
  Bool, true, false, Option, some, none, List, [], ◌∷◌, ◌≡◌, ◌≢◌, ◌↔◌, ◌⊎◌, inl, inr, refl, arith,
  eq_iff, ◌==◌, string_eq, AtLeast, below, if◌then◌else◌,
}
use schema_strimzi_operator.Api.RegistryTypes.{
  auth_type_basic, auth_type_bearer, auth_type_mtls, BasicAuthConfig, BearerAuthConfig, MtlsConfig,
  AuthConfig, SchemaRegistrySpec,
}
use schema_strimzi_operator.World.{FieldError, required, invalid_int}
use schema_strimzi_operator.Webhook.RegistryWebhook.{
  basic_errors, bearer_errors, mtls_errors, auth_errors, registry_errors,
}
use schema_strimzi_operator.Webhook.Violations.{
  Reports, flagged_iff, required_iff, last_iff, below_iff,
}

module _ (e : FieldError) where
  -- The error e is about the section for BASIC, which is not there or does not name a secret.
  abbrev pub IsBasicFault : Option BasicAuthConfig → Type 0
  IsBasicFault none =
      required "spec.auth.basicAuth" "basicAuth must be set when auth type is BASIC" ≡ e
  IsBasicFault (some b) =
      (b.secret_ref ≡ "")
      × (required "spec.auth.basicAuth.secretRef" "basicAuth.secretRef must not be empty" ≡ e)

  abbrev pub IsBearerFault : Option BearerAuthConfig → Type 0
  IsBearerFault none =
      required "spec.auth.bearerAuth" "bearerAuth must be set when auth type is BEARER" ≡ e
  IsBearerFault (some b) =
      (b.secret_ref ≡ "")
      × (required "spec.auth.bearerAuth.secretRef" "bearerAuth.secretRef must not be empty" ≡ e)

  abbrev pub IsMtlsFault : Option MtlsConfig → Type 0
  IsMtlsFault none = required "spec.auth.mtls" "mtls must be set when auth type is MTLS" ≡ e
  IsMtlsFault (some m) =
      (m.cert_secret_ref ≡ "")
      × (required "spec.auth.mtls.certSecretRef" "mtls.certSecretRef must not be empty" ≡ e)

  -- It is about the section that the type of authentication calls for.
  abbrev pub IsAuthFault : Option AuthConfig → Type 0
  IsAuthFault none = ⊥
  IsAuthFault (some auth) =
      ((auth.type ≡ auth_type_basic) × IsBasicFault auth.basic_auth)
      ⊎ (((auth.type ≡ auth_type_bearer) × IsBearerFault auth.bearer_auth)
          ⊎ ((auth.type ≡ auth_type_mtls) × IsMtlsFault auth.mtls))

  -- It is about a fault of the spec.
  abbrev pub IsRegistryFault : SchemaRegistrySpec → Type 0
  IsRegistryFault spec =
      ((spec.url ≡ "") × (required "spec.url" "url must not be empty" ≡ e))
      ⊎ (((¬ AtLeast 0 spec.timeout)
            × (invalid_int "spec.timeout" spec.timeout "timeout must be >= 0" ≡ e))
          ⊎ IsAuthFault spec.auth)

  single_iff : (x : FieldError) → Reports e (x ∷ []) ↔ (x ≡ e)
  single_iff x = (λ h. elim h [ inl same ↦ same | inr n ↦ absurd n ], λ same. inl same)

  basic_errors_iff : (o : Option BasicAuthConfig) → Reports e (basic_errors o) ↔ IsBasicFault o
  unfolding basic_errors
  basic_errors_iff none = single_iff _
  basic_errors_iff (some b) = last_iff e (b.secret_ref == "") _ (eq_iff b.secret_ref "")

  bearer_errors_iff : (o : Option BearerAuthConfig) → Reports e (bearer_errors o) ↔ IsBearerFault o
  unfolding bearer_errors
  bearer_errors_iff none = single_iff _
  bearer_errors_iff (some b) = last_iff e (b.secret_ref == "") _ (eq_iff b.secret_ref "")

  mtls_errors_iff : (o : Option MtlsConfig) → Reports e (mtls_errors o) ↔ IsMtlsFault o
  unfolding mtls_errors
  mtls_errors_iff none = single_iff _
  mtls_errors_iff (some m) = last_iff e (m.cert_secret_ref == "") _ (eq_iff m.cert_secret_ref "")

  -- The errors of a switch with one case, and of one with more.
  case_iff :
      {T P : Type 0} (b : Bool) (xs : List FieldError)
      → (b ≡ true) ↔ T
      → Reports e xs ↔ P
      → Reports e (if b then xs else []) ↔ (T × P)
  case_iff true xs t p = (λ h. (t.0 refl, p.0 h), λ (there, h). p.1 h)
  case_iff false xs t p = (λ h. absurd h, λ (there, h). absurd (ground (arith, t.1 there)))

  cases_iff :
      {T P S : Type 0} (b : Bool) (xs rest : List FieldError)
      → (S → ¬ T)
      → (b ≡ true) ↔ T
      → Reports e xs ↔ P
      → Reports e rest ↔ S
      → Reports e (if b then xs else rest) ↔ ((T × P) ⊎ S)
  cases_iff true xs rest other t p s = (
    λ h. inl (t.0 refl, p.0 h),
    λ h. elim h [ inl (there, m) ↦ p.1 m | inr m ↦ absurd (other m (t.0 refl)) ],
  )
  cases_iff false xs rest other t p s = (
    λ h. inr (s.0 h),
    λ h. elim h [ inl (there, m) ↦ absurd (ground (arith, t.1 there)) | inr m ↦ s.1 m ],
  )

  not_bearer :
      (auth : AuthConfig)
      → (auth.type ≡ auth_type_mtls) × IsMtlsFault auth.mtls
      → auth.type ≢ auth_type_bearer
  not_bearer auth (mtls, fault) bearer = ground (arith, eq_iff auth_type_bearer auth_type_mtls)

  not_basic :
      (auth : AuthConfig)
      → ((auth.type ≡ auth_type_bearer) × IsBearerFault auth.bearer_auth)
        ⊎ ((auth.type ≡ auth_type_mtls) × IsMtlsFault auth.mtls)
      → auth.type ≢ auth_type_basic
  not_basic auth (inl (bearer, fault)) basic =
      ground (arith, eq_iff auth_type_basic auth_type_bearer)
  not_basic auth (inr (mtls, fault)) basic = ground (arith, eq_iff auth_type_basic auth_type_mtls)

  auth_errors_iff : (auth : Option AuthConfig) → Reports e (auth_errors auth) ↔ IsAuthFault auth
  unfolding auth_errors
  auth_errors_iff none = (λ h. absurd h, λ h. absurd h)
  auth_errors_iff (some auth) =
      cases_iff (auth.type == auth_type_basic) _ _ (not_basic auth)
        (eq_iff auth.type auth_type_basic) (basic_errors_iff auth.basic_auth)
        (cases_iff (auth.type == auth_type_bearer) _ _ (not_bearer auth)
          (eq_iff auth.type auth_type_bearer) (bearer_errors_iff auth.bearer_auth)
          (case_iff (auth.type == auth_type_mtls) _ (eq_iff auth.type auth_type_mtls)
            (mtls_errors_iff auth.mtls)))

  -- The webhook reports an error for a registry exactly if it is about a fault of the spec: an empty
  -- URL, a negative timeout, or a section that the type of authentication calls for and that is not
  -- there or does not name its secret, with the path of this section.
  pub registry_errors_iff :
      (spec : SchemaRegistrySpec) → Reports e (registry_errors spec) ↔ IsRegistryFault spec
  unfolding registry_errors
  registry_errors_iff spec = required_iff e spec.url _ _ (
      flagged_iff e (below spec.timeout 0) _ _ (below_iff e spec.timeout 0)
        (auth_errors_iff spec.auth))
