-- ===== src/Api/SchemaTypes.antt =====
-- api/v1alpha1/schema_types.go
use schema_strimzi_operator.Prelude.{ℤ, String, Option, List}
use schema_strimzi_operator.Api.Meta.{ObjectMeta, Condition, Timestamp}

abbrev pub schema_type_avro : String
schema_type_avro = "AVRO"

abbrev pub schema_type_json : String
schema_type_json = "JSON"

abbrev pub schema_type_protobuf : String
schema_type_protobuf = "PROTOBUF"

pub record SchemaReference : Type 0 where
  pub name : String
  pub subject : String
  pub version : ℤ

pub record SchemaRegistryRef : Type 0 where
  pub name : String
  pub namespace : String

pub record SchemaSpec : Type 0 where
  pub subject : String
  pub schema_type : String
  pub schema : String
  pub references : List SchemaReference
  pub registry_ref : SchemaRegistryRef
  pub compatibility_level : String

pub record SchemaStatus : Type 0 where
  pub schema_id : Option ℤ
  pub version : Option ℤ
  pub registered_at : Option Timestamp
  pub observed_generation : ℤ
  pub conditions : List Condition

pub record Schema : Type 0 where
  pub metadata : ObjectMeta
  pub spec : SchemaSpec
  pub status : SchemaStatus
