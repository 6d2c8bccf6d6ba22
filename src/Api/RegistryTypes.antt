-- ===== src/Api/RegistryTypes.antt =====
-- api/v1alpha1/schemaregistry_types.go
use schema_strimzi_operator.Prelude.{ℤ, String, Bool, Option, List}
use schema_strimzi_operator.Api.Meta.{ObjectMeta, Condition, Timestamp}

abbrev pub auth_type_none : String
auth_type_none = "NONE"

abbrev pub auth_type_basic : String
auth_type_basic = "BASIC"

abbrev pub auth_type_bearer : String
auth_type_bearer = "BEARER"

abbrev pub auth_type_mtls : String
auth_type_mtls = "MTLS"

pub record BasicAuthConfig : Type 0 where
  pub secret_ref : String

pub record BearerAuthConfig : Type 0 where
  pub secret_ref : String

pub record MtlsConfig : Type 0 where
  pub cert_secret_ref : String
  pub ca_secret_ref : String

pub record AuthConfig : Type 0 where
  pub type : String
  pub basic_auth : Option BasicAuthConfig
  pub bearer_auth : Option BearerAuthConfig
  pub mtls : Option MtlsConfig

pub record SchemaRegistrySpec : Type 0 where
  pub url : String
  pub auth : Option AuthConfig
  pub insecure_skip_verify : Bool
  pub timeout : ℤ

pub record SchemaRegistryStatus : Type 0 where
  pub connection_status : String
  pub last_checked : Option Timestamp
  pub observed_generation : ℤ
  pub conditions : List Condition

pub record SchemaRegistry : Type 0 where
  pub metadata : ObjectMeta
  pub spec : SchemaRegistrySpec
  pub status : SchemaRegistryStatus
