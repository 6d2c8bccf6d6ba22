-- ===== src/Controller/Helpers/Credentials.antt =====
-- What the loaded configuration holds, and when loading fails.
use schema_strimzi_operator.Prelude.{String, Option, none, some, ◌≡◌, ◌≢◌, ◌↔◌, arith, eq_iff}
use schema_strimzi_operator.Error.{Result, ok}
use schema_strimzi_operator.Api.Meta.{Secret, entry}
use schema_strimzi_operator.Api.RegistryTypes.{
  auth_type_none, auth_type_basic, auth_type_bearer, auth_type_mtls, BasicAuthConfig,
  BearerAuthConfig, MtlsConfig, SchemaRegistry,
}
use schema_strimzi_operator.Api.RegistryTypes
use schema_strimzi_operator.Client.Types.{AuthConfig}
use schema_strimzi_operator.World.{World, Trace}
use schema_strimzi_operator.Controller.Helpers.{
  unloaded, load_basic, load_bearer, load_mtls, load_of_type, load_optional, load_auth_config,
}

abbrev declared : Option RegistryTypes.AuthConfig → String
declared none = auth_type_none
declared (some auth) = auth.type

abbrev pub declared_type : SchemaRegistry → String
declared_type sr = declared sr.spec.auth

-- Nothing is loaded that another type of authentication would use.
pub record IsIsolated (type : String) (config : AuthConfig) : Type 0 where
  pub same_type : config.type ≡ type
  pub basic : type ≢ auth_type_basic → (config.username ≡ "") × (config.password ≡ "")
  pub bearer : type ≢ auth_type_bearer → config.bearer_token ≡ ""
  pub mtls : type ≢ auth_type_mtls → (config.client_cert ≡ none) × (config.ca_cert ≡ none)

module _ (w : World) (namespace : String) (t : Trace) (config : AuthConfig) where
  load_basic-IsIsolated :
      (b : Option BasicAuthConfig)
      → (load_basic w namespace b t).0 ≡ ok config
      → IsIsolated auth_type_basic config
  unfolding load_basic
  load_basic-IsIsolated none h = ground arith
  load_basic-IsIsolated (some b) h = ground arith

  load_bearer-IsIsolated :
      (b : Option BearerAuthConfig)
      → (load_bearer w namespace b t).0 ≡ ok config
      → IsIsolated auth_type_bearer config
  unfolding load_bearer
  load_bearer-IsIsolated none h = ground arith
  load_bearer-IsIsolated (some b) h = ground arith

  load_mtls-IsIsolated :
      (m : Option MtlsConfig)
      → (load_mtls w namespace m t).0 ≡ ok config
      → IsIsolated auth_type_mtls config
  unfolding load_mtls
  load_mtls-IsIsolated none h = ground arith
  load_mtls-IsIsolated (some m) h = ground arith

  load_of_type-IsIsolated :
      (auth : RegistryTypes.AuthConfig)
      → (load_of_type w namespace auth t).0 ≡ ok config
      → IsIsolated auth.type config
  unfolding load_of_type
  load_of_type-IsIsolated auth h = ground (
    arith,
    eq_iff auth.type auth_type_basic,
    eq_iff auth.type auth_type_bearer,
    eq_iff auth.type auth_type_mtls,
    load_basic-IsIsolated auth.basic_auth,
    load_bearer-IsIsolated auth.bearer_auth,
    load_mtls-IsIsolated auth.mtls,
  )

  load_optional-IsIsolated :
      (auth : Option RegistryTypes.AuthConfig)
      → (load_optional w namespace auth t).0 ≡ ok config
      → IsIsolated (declared auth) config
  unfolding load_optional
  load_optional-IsIsolated none h = ground arith
  load_optional-IsIsolated (some auth) h = load_of_type-IsIsolated auth h

-- A loaded configuration has the declared type (NONE without a declaration), and holds nothing that
-- only another type of authentication uses.
pub load_auth_config-IsIsolated :
    (w : World) (sr : SchemaRegistry) (t : Trace) (config : AuthConfig)
    → (load_auth_config w sr t).0 ≡ ok config
    → IsIsolated (declared_type sr) config
unfolding load_auth_config
load_auth_config-IsIsolated w sr t config h =
    load_optional-IsIsolated w sr.metadata.namespace t config sr.spec.auth h

-- The configuration that a section leads to, when its secret reads as `secret name`.
module _ (secret : String → Result Secret) (config : AuthConfig) where
  abbrev pub FromBasic : Option BasicAuthConfig → Type 0
  FromBasic none = ⊥
  FromBasic (some b) =
      (s : Secret) × (secret b.secret_ref ≡ ok s)
      × (config ≡ record (unloaded auth_type_basic) {
        username = entry "username" s.entries;
        password = entry "password" s.entries;
      })

  abbrev pub FromBearer : Option BearerAuthConfig → Type 0
  FromBearer none = ⊥
  FromBearer (some b) =
      (s : Secret) × (secret b.secret_ref ≡ ok s)
      × (config ≡ record (unloaded auth_type_bearer) { bearer_token = entry "token" s.entries })

module _ (w : World) (namespace : String) (t : Trace) (config : AuthConfig) where
  abbrev pub secret_at : String → Result Secret
  secret_at name = w.get_secret t (record { name = name; namespace = namespace })

  load_basic-eq-ok_iff :
      (b : Option BasicAuthConfig)
      → ((load_basic w namespace b t).0 ≡ ok config) ↔ FromBasic secret_at config b
  unfolding load_basic
  load_basic-eq-ok_iff none = (λ h. ground arith, λ h. absurd h)
  load_basic-eq-ok_iff (some b) = (λ h. ground arith, λ h. ground arith)

  load_bearer-eq-ok_iff :
      (b : Option BearerAuthConfig)
      → ((load_bearer w namespace b t).0 ≡ ok config) ↔ FromBearer secret_at config b
  unfolding load_bearer
  load_bearer-eq-ok_iff none = (λ h. ground arith, λ h. absurd h)
  load_bearer-eq-ok_iff (some b) = (λ h. ground arith, λ h. ground arith)

  load_of_type-basic :
      (auth : RegistryTypes.AuthConfig)
      → auth.type ≡ auth_type_basic
      → load_of_type w namespace auth t ≡ load_basic w namespace auth.basic_auth t
  unfolding load_of_type
  load_of_type-basic auth e = ground (arith, eq_iff auth.type auth_type_basic)

  load_of_type-bearer :
      (auth : RegistryTypes.AuthConfig)
      → auth.type ≡ auth_type_bearer
      → load_of_type w namespace auth t ≡ load_bearer w namespace auth.bearer_auth t
  unfolding load_of_type
  load_of_type-bearer auth e = ground (
    arith,
    eq_iff auth.type auth_type_basic,
    eq_iff auth.type auth_type_bearer,
    eq_iff auth_type_basic auth_type_bearer,
  )

module _ (w : World) (sr : SchemaRegistry) (auth : RegistryTypes.AuthConfig) (t : Trace)
    (config : AuthConfig) (declared : sr.spec.auth ≡ some auth) where
  -- For a registry that declares BASIC, loading gives a configuration exactly when the section is
  -- there and the secret that it names can be read, and it is the one with the entries `username`
  -- and `password` of this secret and nothing else.
  pub load_auth_config-basic_iff :
      auth.type ≡ auth_type_basic
      → ((load_auth_config w sr t).0 ≡ ok config)
        ↔ FromBasic (secret_at w sr.metadata.namespace t config) config auth.basic_auth
  unfolding load_auth_config load_optional
  load_auth_config-basic_iff basic =
      let namespace = sr.metadata.namespace in
      rw declared (
        rw (load_of_type-basic w namespace t config auth basic)
          (load_basic-eq-ok_iff w namespace t config auth.basic_auth))

  -- For a registry that declares BEARER, loading gives a configuration exactly when the section is
  -- there and the secret that it names can be read, and it is the one with the entry `token` of this
  -- secret and nothing else.
  pub load_auth_config-bearer_iff :
      auth.type ≡ auth_type_bearer
      → ((load_auth_config w sr t).0 ≡ ok config)
        ↔ FromBearer (secret_at w sr.metadata.namespace t config) config auth.bearer_auth
  unfolding load_auth_config load_optional
  load_auth_config-bearer_iff bearer =
      let namespace = sr.metadata.namespace in
      rw declared (
        rw (load_of_type-bearer w namespace t config auth bearer)
          (load_bearer-eq-ok_iff w namespace t config auth.bearer_auth))
