-- ===== src/Controller/Helpers.antt =====
-- internal/controller/helpers.go, and the timeout that both reconcilers compute.
pub mod Reads
pub mod Secrets
pub mod Credentials
pub mod Certificates
pub mod Contents
pub mod Timeouts
pub mod Total
use schema_strimzi_operator.Prelude.{
  ℤ, pos, ◌*◌, String, Option, none, some, [], ◌∷◌, ◌==◌, string_eq, int_eq, mul_int64, ◌<>◌,
  if◌then◌else◌,
}
use schema_strimzi_operator.Error.{message, wrap, Result, ok, err}
use schema_strimzi_operator.Api.Meta.{Secret, entry}
use schema_strimzi_operator.Api.RegistryTypes.{
  auth_type_none, auth_type_basic, auth_type_bearer, auth_type_mtls, BasicAuthConfig,
  BearerAuthConfig, MtlsConfig, SchemaRegistry,
}
use schema_strimzi_operator.Api.RegistryTypes
use schema_strimzi_operator.Client.Types.{AuthConfig}
use schema_strimzi_operator.World.{World}
use schema_strimzi_operator.Exec.{Run, finish, give, perform, check, check_nil, pure, ◌>>=◌, ◌>>◌}
use schema_strimzi_operator.Controller.Effects.{effects, get_secret, second}

-- A configuration of the type, with nothing loaded.
abbrev pub unloaded : String → AuthConfig
unloaded type = record {
  type = type;
  username = "";
  password = "";
  bearer_token = "";
  client_cert = none;
  ca_cert = none;
}

module _ (w : World) (namespace : String) where
  -- `Get` of a secret in the namespace of the registry; `what` begins the message of its error.
  read_secret : String → String → Run (Result Secret)
  unfolding effects
  read_secret what name = finish do
    r ← perform (get_secret w (record { name = name; namespace = namespace }))
    secret ← check r (λ e. pure (err (wrap (what <> " " <> w.quote name) e)))
    give (ok secret)

  load_basic : Option BasicAuthConfig → Run (Result AuthConfig)
  unfolding effects read_secret
  load_basic none = pure (err (message "basicAuth config is required when type is BASIC"))
  load_basic (some basic) = finish do
    r ← perform (read_secret "failed to get basic auth secret" basic.secret_ref)
    secret ← check r (λ e. pure (err e))
    give (
        ok (record (unloaded auth_type_basic) {
          username = entry "username" secret.entries;
          password = entry "password" secret.entries;
        }))

  load_bearer : Option BearerAuthConfig → Run (Result AuthConfig)
  unfolding effects read_secret
  load_bearer none = pure (err (message "bearerAuth config is required when type is BEARER"))
  load_bearer (some bearer) = finish do
    r ← perform (read_secret "failed to get bearer auth secret" bearer.secret_ref)
    secret ← check r (λ e. pure (err e))
    give (ok (record (unloaded auth_type_bearer) { bearer_token = entry "token" secret.entries }))

  -- `AppendCertsFromPEM` on a new pool; that it may refuse the text is ignored.
  load_ca : String → AuthConfig → Run (Result AuthConfig)
  unfolding effects read_secret
  load_ca name config = finish do
    r ← perform (read_secret "failed to get CA cert secret" name)
    secret ← check r (λ e. pure (err e))
    give (
        ok (record config {
          ca_cert = some (record { appended = entry "ca.crt" secret.entries ∷ [] });
        }))

  load_mtls : Option MtlsConfig → Run (Result AuthConfig)
  unfolding effects read_secret load_ca
  load_mtls none = pure (err (message "mtls config is required when type is MTLS"))
  load_mtls (some mtls) = finish do
    r ← perform (read_secret "failed to get client cert secret" mtls.cert_secret_ref)
    secret ← check r (λ e. pure (err e))
    let cert = entry "tls.crt" secret.entries
    let key = entry "tls.key" secret.entries
    check_nil (w.key_pair_error cert key)
        (λ e. pure (err (wrap "failed to parse client certificate" e)))
    let config = record (unloaded auth_type_mtls) {
      client_cert = some (record { cert_pem = cert; key_pem = key });
    }
    if mtls.ca_secret_ref == ""
        then give (ok config)
        else do loaded ← perform (load_ca mtls.ca_secret_ref config); give loaded

  load_of_type : RegistryTypes.AuthConfig → Run (Result AuthConfig)
  unfolding effects load_basic load_bearer load_mtls
  load_of_type auth =
      if auth.type == auth_type_basic
      then load_basic auth.basic_auth
      else if auth.type == auth_type_bearer
      then load_bearer auth.bearer_auth
      else if auth.type == auth_type_mtls
      then load_mtls auth.mtls
      else pure (ok (unloaded auth.type))

  load_optional : Option RegistryTypes.AuthConfig → Run (Result AuthConfig)
  unfolding effects load_of_type
  load_optional none = pure (ok (unloaded auth_type_none))
  load_optional (some auth) = load_of_type auth

-- `loadAuthConfig`. What it returns beside an error is read by no caller, and is left out.
unfoldable pub load_auth_config : World → SchemaRegistry → Run (Result AuthConfig)
unfolding load_optional
load_auth_config w sr = load_optional w sr.metadata.namespace sr.spec.auth

-- The timeout of the HTTP client: seconds in nanoseconds, and 30 seconds for 0.
unfoldable pub request_timeout : ℤ → ℤ
request_timeout seconds =
    let timeout = mul_int64 seconds second in
    if timeout == pos 0 then pos (30 * second) else timeout
