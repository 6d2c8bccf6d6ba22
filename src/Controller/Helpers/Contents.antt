-- ===== src/Controller/Helpers/Contents.antt =====
-- What the loaded configuration of any registry holds, and when loading it fails.
use schema_strimzi_operator.Prelude.{
  String, Option, none, some, ◌≡◌, ◌≢◌, ◌↔◌, ◌⊎◌, inl, inr, arith, eq_iff, string_eq, String-cases,
  Option-cases, sym,
}
use mathlib.Core.Path.{subst}
use schema_strimzi_operator.Error.{ok}
use schema_strimzi_operator.Api.RegistryTypes.{
  auth_type_none, auth_type_basic, auth_type_bearer, auth_type_mtls, SchemaRegistry,
}
use schema_strimzi_operator.Api.RegistryTypes
use schema_strimzi_operator.Client.Types.{AuthConfig}
use schema_strimzi_operator.World.{World, Trace}
use schema_strimzi_operator.Controller.Helpers.{
  unloaded, load_of_type, load_optional, load_auth_config,
}
use schema_strimzi_operator.Controller.Helpers.Credentials.{
  FromBasic, FromBearer, secret_at, load_auth_config-basic_iff, load_auth_config-bearer_iff,
}
use schema_strimzi_operator.Controller.Helpers.Certificates.{FromMtls, load_auth_config-mtls_iff}

module _ (w : World) (namespace : String) (t : Trace) (config : AuthConfig) where
  -- The configuration that a declaration of this type leads to; another type loads nothing.
  abbrev pub FromType : RegistryTypes.AuthConfig → Type 0
  FromType auth =
      ((auth.type ≡ auth_type_basic)
        × FromBasic (secret_at w namespace t config) config auth.basic_auth)
      ⊎ (((auth.type ≡ auth_type_bearer)
            × FromBearer (secret_at w namespace t config) config auth.bearer_auth)
          ⊎ (((auth.type ≡ auth_type_mtls) × FromMtls w namespace config t auth.mtls)
              ⊎ ((auth.type ≢ auth_type_basic)
                  × (auth.type ≢ auth_type_bearer)
                  × (auth.type ≢ auth_type_mtls)
                  × (config ≡ unloaded auth.type))))

  abbrev pub FromDeclaration : Option RegistryTypes.AuthConfig → Type 0
  FromDeclaration none = config ≡ unloaded auth_type_none
  FromDeclaration (some auth) = FromType auth

  load_of_type-other :
      (auth : RegistryTypes.AuthConfig)
      → auth.type ≢ auth_type_basic
      → auth.type ≢ auth_type_bearer
      → auth.type ≢ auth_type_mtls
      → ((load_of_type w namespace auth t).0 ≡ ok config) ↔ (config ≡ unloaded auth.type)
  unfolding load_of_type
  load_of_type-other auth not_basic not_bearer not_mtls =
      let basic = eq_iff auth.type auth_type_basic in
      let bearer = eq_iff auth.type auth_type_bearer in
      let mtls = eq_iff auth.type auth_type_mtls in
      (λ h. ground (arith, basic, bearer, mtls), λ h. ground (arith, basic, bearer, mtls))

module _ (w : World) (sr : SchemaRegistry) (t : Trace) (config : AuthConfig) where
  load_declared_iff :
      (auth : RegistryTypes.AuthConfig)
      → sr.spec.auth ≡ some auth
      → ((load_auth_config w sr t).0 ≡ ok config) ↔ FromType w sr.metadata.namespace t config auth
  unfolding load_auth_config load_optional
  load_declared_iff auth declared =
      let basic_iff = load_auth_config-basic_iff w sr auth t config declared in
      let bearer_iff = load_auth_config-bearer_iff w sr auth t config declared in
      let mtls_iff = load_auth_config-mtls_iff w sr auth t config declared in
      let other_iff = load_of_type-other w sr.metadata.namespace t config auth in
      (
        λ h. elim (String-cases auth.type auth_type_basic) [
          | inl same ↦ inl (same, (basic_iff same).0 h)
          | inr p ↦ elim (String-cases auth.type auth_type_bearer) [
            | inl same ↦ inr (inl (same, (bearer_iff same).0 h))
            | inr q ↦ elim (String-cases auth.type auth_type_mtls) [
              | inl same ↦ inr (inr (inl (same, (mtls_iff same).0 h)))
              | inr r ↦ inr (inr (inr (p, q, r, (other_iff p q r).0 (rw declared at h))))
            ]
          ]
        ],
        λ from. elim from [
          | inl (same, f) ↦ (basic_iff same).1 f
          | inr (inl (same, f)) ↦ (bearer_iff same).1 f
          | inr (inr (inl (same, f))) ↦ (mtls_iff same).1 f
          | inr (inr (inr (p, q, r, f))) ↦ rw declared ((other_iff p q r).1 f)
        ],
      )

  undeclared_iff :
      sr.spec.auth ≡ none
      → ((load_auth_config w sr t).0 ≡ ok config) ↔ (config ≡ unloaded auth_type_none)
  unfolding load_auth_config load_optional
  undeclared_iff absent = rw absent (λ h. ground arith, λ h. ground arith)

-- Loading gives a configuration exactly as its declaration says. For BASIC, BEARER and MTLS the
-- section is there, its secrets can be read, for MTLS one after the other, and a certificate and its
-- key parse; the configuration is the one of their entries and nothing else. For any other type, and
-- for NONE without a declaration, it is the one of this type that holds nothing.
pub load_auth_config_iff :
    (w : World) (sr : SchemaRegistry) (t : Trace) (config : AuthConfig)
    → ((load_auth_config w sr t).0 ≡ ok config)
      ↔ FromDeclaration w sr.metadata.namespace t config sr.spec.auth
load_auth_config_iff w sr t config = elim (Option-cases sr.spec.auth) [
  | inl absent ↦
      subst
        (λ auth.
          ((load_auth_config w sr t).0 ≡ ok config)
          ↔ FromDeclaration w sr.metadata.namespace t config auth)
        (sym absent) (undeclared_iff w sr t config absent)
  | inr (auth, declared) ↦
      subst
        (λ auth.
          ((load_auth_config w sr t).0 ≡ ok config)
          ↔ FromDeclaration w sr.metadata.namespace t config auth)
        (sym declared) (load_declared_iff w sr t config auth declared)
]
