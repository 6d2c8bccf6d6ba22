-- ===== src/Client/Types.antt =====
-- The types of internal/client/client.go, and the values of net/http, crypto/tls and encoding/json
-- that it builds.
use schema_strimzi_operator.Prelude.{ℕ, ℤ, String, Bool, Option, List}

-- A `tls.Certificate`, by the PEM texts that `tls.X509KeyPair` parsed.
pub record Certificate : Type 0 where
  pub cert_pem : String
  pub key_pem : String

-- An `x509.CertPool`, by the PEM texts that were appended to it.
pub record CertPool : Type 0 where
  pub appended : List String

-- `ClientCert` is a struct in Go; `none` is its zero value.
pub record AuthConfig : Type 0 where
  pub type : String
  pub username : String
  pub password : String
  pub bearer_token : String
  pub client_cert : Option Certificate
  pub ca_cert : Option CertPool

pub record TlsConfig : Type 0 where
  pub insecure_skip_verify : Bool
  pub certificates : List (Option Certificate)
  pub root_cas : Option CertPool

-- The timeout is a `time.Duration`, in nanoseconds.
pub record HttpClient : Type 0 where
  pub timeout : ℤ
  pub tls_client_config : TlsConfig

pub record SchemaRegistryClient : Type 0 where
  pub base_url : String
  pub http_client : HttpClient
  pub auth : AuthConfig

pub record SchemaResponse : Type 0 where
  pub id : ℤ
  pub version : ℤ
  pub schema : String

pub record SchemaReference : Type 0 where
  pub name : String
  pub subject : String
  pub version : ℤ

pub record RegisterSchemaRequest : Type 0 where
  pub schema : String
  pub schema_type : String
  pub references : List SchemaReference

-- What is handed to `json.Marshal`.
pub data Body : Type 0 where
  registration : RegisterSchemaRequest → Body
  compatibility : String → Body

pub record HttpRequest : Type 0 where
  pub method : String
  pub url : String
  pub headers : List (String × String)
  pub body : Option Body

-- The body is what could be read of it.
pub record HttpResponse : Type 0 where
  pub status_code : ℕ
  pub body : String
