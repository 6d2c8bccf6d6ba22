-- ===== src/Controller/Watches/References.antt =====
-- Which secrets a registry refers to, described apart from the test of the code.
use schema_strimzi_operator.Prelude.{
  String, true, Option, some, none, ◌≡◌, refl, ◌↔◌, ◌⊎◌, inl, inr, arith, eq_iff, ◌==◌, string_eq,
  Bool-cases,
}
use schema_strimzi_operator.Api.RegistryTypes.{
  BasicAuthConfig, BearerAuthConfig, MtlsConfig, AuthConfig, SchemaRegistry,
}
use schema_strimzi_operator.Controller.Watches.{
  basic_references, bearer_references, mtls_references, auth_references,
  schema_registry_references_secret,
}

-- The section of the declared type, and no other, names the secret.
pub data RefersToSecret (name : String) (auth : AuthConfig) : Type 0 where
  by_basic :
      (basic : BasicAuthConfig)
      → auth.type ≡ "BASIC"
      → auth.basic_auth ≡ some basic
      → basic.secret_ref ≡ name
      → RefersToSecret name auth
  by_bearer :
      (bearer : BearerAuthConfig)
      → auth.type ≡ "BEARER"
      → auth.bearer_auth ≡ some bearer
      → bearer.secret_ref ≡ name
      → RefersToSecret name auth
  by_mtls :
      (mtls : MtlsConfig)
      → auth.type ≡ "MTLS"
      → auth.mtls ≡ some mtls
      → (mtls.cert_secret_ref ≡ name) ⊎ (mtls.ca_secret_ref ≡ name)
      → RefersToSecret name auth

-- The registry has a section for authentication, and it refers to the secret of this name.
abbrev pub NamesSecret : String → SchemaRegistry → Type 0
NamesSecret name sr = (auth : AuthConfig) × (sr.spec.auth ≡ some auth) × RefersToSecret name auth

module _ (name : String) where
  basic-names :
      (o : Option BasicAuthConfig)
      → basic_references o name ≡ true
      → (basic : BasicAuthConfig) × (o ≡ some basic) × (basic.secret_ref ≡ name)
  unfolding basic_references
  basic-names none h = absurd (cc h)
  basic-names (some basic) h = (basic, refl, (eq_iff basic.secret_ref name).0 h)

  bearer-names :
      (o : Option BearerAuthConfig)
      → bearer_references o name ≡ true
      → (bearer : BearerAuthConfig) × (o ≡ some bearer) × (bearer.secret_ref ≡ name)
  unfolding bearer_references
  bearer-names none h = absurd (cc h)
  bearer-names (some bearer) h = (bearer, refl, (eq_iff bearer.secret_ref name).0 h)

  mtls-names :
      (o : Option MtlsConfig)
      → mtls_references o name ≡ true
      → (mtls : MtlsConfig) × (o ≡ some mtls)
        × ((mtls.cert_secret_ref ≡ name) ⊎ (mtls.ca_secret_ref ≡ name))
  unfolding mtls_references
  mtls-names none h = absurd (cc h)
  mtls-names (some mtls) h =
      (mtls, refl, ground (arith, eq_iff mtls.cert_secret_ref name, eq_iff mtls.ca_secret_ref name))

  auth-RefersToSecret :
      (auth : AuthConfig) → auth_references (some auth) name ≡ true → RefersToSecret name auth
  unfolding auth_references
  auth-RefersToSecret auth h = elim (Bool-cases (auth.type == "BASIC")) [
    | inl basic ↦
        let (section, there, names) = basic-names auth.basic_auth (rw basic at h) in
        by_basic section ((eq_iff auth.type "BASIC").0 basic) there names
    | inr not_basic ↦ elim (Bool-cases (auth.type == "BEARER")) [
      | inl bearer ↦
          let (section, there, names) =
            bearer-names auth.bearer_auth (rw (not_basic, bearer) at h) in
          by_bearer section ((eq_iff auth.type "BEARER").0 bearer) there names
      | inr not_bearer ↦ elim (Bool-cases (auth.type == "MTLS")) [
        | inl mtls ↦
            let (section, there, names) =
              mtls-names auth.mtls (rw (not_basic, not_bearer, mtls) at h) in
            by_mtls section ((eq_iff auth.type "MTLS").0 mtls) there names
        | inr other ↦ absurd (cc (rw (not_basic, not_bearer, other) at h))
      ]
    ]
  ]

  RefersToSecret-auth :
      (auth : AuthConfig) → RefersToSecret name auth → auth_references (some auth) name ≡ true
  unfolding auth_references basic_references bearer_references mtls_references
  RefersToSecret-auth auth (by_basic section type there names) =
      rw (type, there) ((eq_iff section.secret_ref name).1 names)
  RefersToSecret-auth auth (by_bearer section type there names) =
      rw (type, there) ((eq_iff section.secret_ref name).1 names)
  RefersToSecret-auth auth (by_mtls section type there names) =
      rw (type, there)
        (ground (arith, eq_iff section.cert_secret_ref name, eq_iff section.ca_secret_ref name))

  references-NamesSecret :
      (o : Option AuthConfig)
      → (auth_references o name ≡ true)
        ↔ ((auth : AuthConfig) × (o ≡ some auth) × RefersToSecret name auth)
  unfolding auth_references
  references-NamesSecret none = (λ h. absurd (cc h), λ (auth, e, r). absurd (cc e))
  references-NamesSecret (some auth) = (
    λ h. (auth, refl, auth-RefersToSecret auth h),
    λ (other, e, r). let same : auth ≡ other = cc e in rw same (RefersToSecret-auth other r),
  )

  pub references-NamesSecret_iff :
      (sr : SchemaRegistry)
      → (schema_registry_references_secret sr name ≡ true) ↔ NamesSecret name sr
  unfolding schema_registry_references_secret
  references-NamesSecret_iff sr = references-NamesSecret sr.spec.auth
