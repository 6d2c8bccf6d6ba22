-- ===== src/Controller/Helpers/Total.antt =====
-- When loading credentials is bound to succeed.
use schema_strimzi_operator.Prelude.{
  String, Option, none, some, ◌∷◌, ◌≡◌, refl, arith, eq_iff, int_eq, string_eq,
}
use schema_strimzi_operator.Error.{ok, IsOk, IsOk-ok}
use schema_strimzi_operator.Api.Meta.{ObjectKey, Secret, entry}
use schema_strimzi_operator.Api.RegistryTypes.{
  auth_type_basic, auth_type_bearer, auth_type_mtls, BasicAuthConfig, BearerAuthConfig, MtlsConfig,
  SchemaRegistry,
}
use schema_strimzi_operator.Api.RegistryTypes
use schema_strimzi_operator.Client.Types.{AuthConfig}
use schema_strimzi_operator.World.{World, IsDocumented, Trace, got_secret}
use schema_strimzi_operator.Webhook.RegistryWebhook.{validate_create}
use schema_strimzi_operator.Webhook.RegistryRules.{
  HasBasic, HasBearer, HasMtls, IsValidAuth, IsValidOptional,
  validate_schema_registry_spec-eq-nil_iff,
}
use schema_strimzi_operator.Controller.Helpers.{
  read_secret, load_basic, load_bearer, load_ca, load_mtls, load_of_type, load_optional,
  load_auth_config,
}

module _ (w : World)
    (readable : (t : Trace) (key : ObjectKey) → (s : Secret) × (w.get_secret t key ≡ ok s))
    (parses : (cert key : String) → w.key_pair_error cert key ≡ none) (namespace : String) where
  read_secret-total :
      (what name : String) (t : Trace)
      → (s : Secret) × (read_secret w namespace what name t
          ≡ (ok s, got_secret (record { name = name; namespace = namespace }) (ok s) ∷ t))
  unfolding read_secret
  read_secret-total what name t =
      let (s, e) = readable t (record { name = name; namespace = namespace }) in (s, rw e refl)

  load_basic-total :
      (b : Option BasicAuthConfig) (t : Trace) → HasBasic b → IsOk (load_basic w namespace b t).0
  unfolding load_basic
  load_basic-total none t h = absurd h
  load_basic-total (some b) t h =
      let (s, e) = read_secret-total "failed to get basic auth secret" b.secret_ref t in
      ground arith

  load_bearer-total :
      (b : Option BearerAuthConfig) (t : Trace) → HasBearer b → IsOk (load_bearer w namespace b t).0
  unfolding load_bearer
  load_bearer-total none t h = absurd h
  load_bearer-total (some b) t h =
      let (s, e) = read_secret-total "failed to get bearer auth secret" b.secret_ref t in
      ground arith

  load_ca-total :
      (name : String) (config : AuthConfig) (t : Trace) → IsOk (load_ca w namespace name config t).0
  unfolding load_ca
  load_ca-total name config t =
      let (s, e) = read_secret-total "failed to get CA cert secret" name t in ground arith

  load_mtls-total :
      (m : Option MtlsConfig) (t : Trace) → HasMtls m → IsOk (load_mtls w namespace m t).0
  unfolding load_mtls
  load_mtls-total none t h = absurd h
  load_mtls-total (some m) t h =
      let (s, e) = read_secret-total "failed to get client cert secret" m.cert_secret_ref t in
      let parsed = parses (entry "tls.crt" s.entries) (entry "tls.key" s.entries) in
      let read = got_secret (record { name = m.cert_secret_ref; namespace = namespace }) (ok s) in
      let (ca, f) = read_secret-total "failed to get CA cert secret" m.ca_secret_ref (read ∷ t) in
      ground arith

  load_of_type-total :
      (auth : RegistryTypes.AuthConfig) (t : Trace)
      → IsValidAuth auth
      → IsOk (load_of_type w namespace auth t).0
  unfolding load_of_type
  load_of_type-total auth t v = ground (
    arith,
    eq_iff auth.type auth_type_basic,
    eq_iff auth.type auth_type_bearer,
    eq_iff auth.type auth_type_mtls,
    load_basic-total auth.basic_auth t,
    load_bearer-total auth.bearer_auth t,
    load_mtls-total auth.mtls t,
  )

  load_optional-total :
      (auth : Option RegistryTypes.AuthConfig) (t : Trace)
      → IsValidOptional auth
      → IsOk (load_optional w namespace auth t).0
  unfolding load_optional
  load_optional-total none t v = tt
  load_optional-total (some auth) t v = load_of_type-total auth t v

-- If the webhook accepts the registry, every secret can be read and every pair of certificate and
-- key parses, then loading the credentials gives a configuration.
pub load_auth_config-total :
    (w : World) (sr : SchemaRegistry) (t : Trace)
    → IsDocumented w
    → validate_create w sr ≡ none
    → ((t : Trace) (key : ObjectKey) → (s : Secret) × (w.get_secret t key ≡ ok s))
    → ((cert key : String) → w.key_pair_error cert key ≡ none)
    → (config : AuthConfig) × ((load_auth_config w sr t).0 ≡ ok config)
unfolding load_auth_config validate_create
load_auth_config-total w sr t d accepted readable parses = IsOk-ok _ (
    load_optional-total w readable parses sr.metadata.namespace sr.spec.auth t
      ((validate_schema_registry_spec-eq-nil_iff w d sr).0 accepted).auth)
