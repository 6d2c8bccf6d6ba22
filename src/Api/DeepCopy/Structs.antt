-- ===== src/Api/DeepCopy/Structs.antt =====
-- The structs of api/v1alpha1 as they lie in memory: pointers and slices are addresses.
use schema_strimzi_operator.Prelude.{ℤ, pos, String, Bool, false, none}
use schema_strimzi_operator.Memory.{Pointer}
use schema_strimzi_operator.Api.SchemaTypes.{SchemaRegistryRef}

-- `metav1.TypeMeta`
pub record TypeMeta : Type 0 where
  pub kind : String
  pub api_version : String

pub record StoredAuthConfig : Type 0 where
  pub type : String
  pub basic_auth : Pointer
  pub bearer_auth : Pointer
  pub mtls : Pointer

pub record StoredRegistrySpec : Type 0 where
  pub url : String
  pub auth : Pointer
  pub insecure_skip_verify : Bool
  pub timeout : ℤ

pub record StoredRegistryStatus : Type 0 where
  pub connection_status : String
  pub last_checked : Pointer
  pub observed_generation : ℤ
  pub conditions : Pointer

pub record StoredSchemaSpec : Type 0 where
  pub subject : String
  pub schema_type : String
  pub schema : String
  pub references : Pointer
  pub registry_ref : SchemaRegistryRef
  pub compatibility_level : String

pub record StoredSchemaStatus : Type 0 where
  pub schema_id : Pointer
  pub version : Pointer
  pub registered_at : Pointer
  pub observed_generation : ℤ
  pub conditions : Pointer

-- Schema and SchemaRegistry, and their values, which differ in the types of the parts.
pub record Object (M S T : Type 0) : Type 0 where
  pub type_meta : TypeMeta
  pub metadata : M
  pub spec : S
  pub status : T

-- SchemaList and SchemaRegistryList, and their values.
pub record ObjectList (L X : Type 0) : Type 0 where
  pub type_meta : TypeMeta
  pub metadata : L
  pub items : X

abbrev pub zero_type_meta : TypeMeta
zero_type_meta = record { kind = ""; api_version = "" }

abbrev pub zero_auth_config : StoredAuthConfig
zero_auth_config = record { type = ""; basic_auth = none; bearer_auth = none; mtls = none }

abbrev pub zero_registry_spec : StoredRegistrySpec
zero_registry_spec = record { url = ""; auth = none; insecure_skip_verify = false; timeout = pos 0 }

abbrev pub zero_registry_status : StoredRegistryStatus
zero_registry_status = record {
  connection_status = "";
  last_checked = none;
  observed_generation = pos 0;
  conditions = none;
}

abbrev pub zero_schema_spec : StoredSchemaSpec
zero_schema_spec = record {
  subject = "";
  schema_type = "";
  schema = "";
  references = none;
  registry_ref = record { name = ""; namespace = "" };
  compatibility_level = "";
}

abbrev pub zero_schema_status : StoredSchemaStatus
zero_schema_status = record {
  schema_id = none;
  version = none;
  registered_at = none;
  observed_generation = pos 0;
  conditions = none;
}
