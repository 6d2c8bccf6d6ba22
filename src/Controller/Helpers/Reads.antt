-- ===== src/Controller/Helpers/Reads.antt =====
-- The properties of a history that loading credentials keeps.
use schema_strimzi_operator.Prelude.{
  String, Bool, true, false, Option, none, some, ◌≡◌, arith, eq_refl, ◌==◌, string_eq,
}
use schema_strimzi_operator.Api.Meta.{ObjectKey}
use schema_strimzi_operator.Api.RegistryTypes.{
  auth_type_basic, auth_type_bearer, auth_type_mtls, BasicAuthConfig, BearerAuthConfig, MtlsConfig,
  SchemaRegistry,
}
use schema_strimzi_operator.Api.RegistryTypes
use schema_strimzi_operator.Client.Types.{AuthConfig}
use schema_strimzi_operator.World.{World, Trace}
use schema_strimzi_operator.Controller.Effects.{get_secret}
use schema_strimzi_operator.Controller.Keeps.{Keeps, Keeps-if, keeps_rules}
use schema_strimzi_operator.Controller.Quiet.{KeepsReads}
use schema_strimzi_operator.Controller.Watches.{
  basic_references, bearer_references, mtls_references, auth_references,
  schema_registry_references_secret,
}
use schema_strimzi_operator.Controller.Helpers.{
  read_secret, load_basic, load_bearer, load_ca, load_mtls, load_of_type, load_optional,
  load_auth_config,
}

module _ (w : World) {K : ObjectKey → Type 0} {I : Trace → Type 0} (on_read : KeepsReads K I)
    (namespace : String) where
  -- Every name of which `refers` tells is the name of a secret that may be read.
  abbrev Covers : (String → Bool) → Type 0
  Covers refers =
      (name : String) → refers name ≡ true → K (record { name = name; namespace = namespace })

  get_secret-Keeps : (key : ObjectKey) → K key → Keeps I (get_secret w key)
  unfolding get_secret
  get_secret-Keeps key allowed = record { at = λ t h. on_read.at key _ t allowed h }

  read_secret-Keeps :
      (what name : String)
      → K (record { name = name; namespace = namespace })
      → Keeps I (read_secret w namespace what name)
  unfolding read_secret
  read_secret-Keeps what name allowed = search (keeps_rules, get_secret-Keeps) depth 12

  load_basic-Keeps :
      (b : Option BasicAuthConfig)
      → Covers (basic_references b)
      → Keeps I (load_basic w namespace b)
  unfolding load_basic basic_references
  load_basic-Keeps none cover = search keeps_rules
  load_basic-Keeps (some basic) cover =
      let allowed = cover basic.secret_ref (eq_refl basic.secret_ref) in
      search (keeps_rules, read_secret-Keeps) depth 12

  load_bearer-Keeps :
      (b : Option BearerAuthConfig)
      → Covers (bearer_references b)
      → Keeps I (load_bearer w namespace b)
  unfolding load_bearer bearer_references
  load_bearer-Keeps none cover = search keeps_rules
  load_bearer-Keeps (some bearer) cover =
      let allowed = cover bearer.secret_ref (eq_refl bearer.secret_ref) in
      search (keeps_rules, read_secret-Keeps) depth 12

  load_ca-Keeps :
      (name : String) (config : AuthConfig)
      → K (record { name = name; namespace = namespace })
      → Keeps I (load_ca w namespace name config)
  unfolding load_ca
  load_ca-Keeps name config allowed = search (keeps_rules, read_secret-Keeps) depth 12

  load_mtls-Keeps :
      (m : Option MtlsConfig) → Covers (mtls_references m) → Keeps I (load_mtls w namespace m)
  unfolding load_mtls mtls_references
  load_mtls-Keeps none cover = search keeps_rules
  load_mtls-Keeps (some mtls) cover =
      let cert = cover mtls.cert_secret_ref (ground (arith, eq_refl mtls.cert_secret_ref)) in
      let ca = cover mtls.ca_secret_ref (ground (arith, eq_refl mtls.ca_secret_ref)) in
      search (keeps_rules, read_secret-Keeps, load_ca-Keeps) depth 16

  load_of_type-Keeps :
      (auth : RegistryTypes.AuthConfig)
      → Covers (auth_references (some auth))
      → Keeps I (load_of_type w namespace auth)
  unfolding load_of_type auth_references
  load_of_type-Keeps auth cover =
      let is_basic = auth.type == auth_type_basic in
      let is_bearer = auth.type == auth_type_bearer in
      let is_mtls = auth.type == auth_type_mtls in
      Keeps-if is_basic _ _
        (λ (p : is_basic ≡ true).
          load_basic-Keeps auth.basic_auth λ name r. cover name (ground arith))
        λ (p : is_basic ≡ false).
          Keeps-if is_bearer _ _
            (λ (q : is_bearer ≡ true).
              load_bearer-Keeps auth.bearer_auth λ name r. cover name (ground arith))
            λ (q : is_bearer ≡ false).
              Keeps-if is_mtls _ _
                (λ (r : is_mtls ≡ true).
                  load_mtls-Keeps auth.mtls λ name s. cover name (ground arith))
                λ r. search keeps_rules

  load_optional-Keeps :
      (auth : Option RegistryTypes.AuthConfig)
      → Covers (auth_references auth)
      → Keeps I (load_optional w namespace auth)
  unfolding load_optional
  load_optional-Keeps none cover = search keeps_rules
  load_optional-Keeps (some auth) cover = load_of_type-Keeps auth cover

module _ (w : World) {K : ObjectKey → Type 0} {I : Trace → Type 0} (on_read : KeepsReads K I) where
  pub load_auth_config-Keeps :
      (sr : SchemaRegistry)
      → ((name : String)
          → schema_registry_references_secret sr name ≡ true
          → K (record { name = name; namespace = sr.metadata.namespace }))
      → Keeps I (load_auth_config w sr)
  unfolding load_auth_config schema_registry_references_secret
  load_auth_config-Keeps sr cover =
      load_optional-Keeps w on_read sr.metadata.namespace sr.spec.auth cover
