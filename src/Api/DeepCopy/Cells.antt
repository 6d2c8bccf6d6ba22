-- ===== src/Api/DeepCopy/Cells.antt =====
-- What the cells of memory hold: the structs of api/v1alpha1, the elements of their slices, and what
-- the structs of apimachinery point to.
use schema_strimzi_operator.Prelude.{ℤ, pos, Option, some, none, List, [], refl}
use schema_strimzi_operator.Api.Meta.{Condition, Timestamp}
use schema_strimzi_operator.Api.SchemaTypes.{SchemaReference, SchemaRegistryRef}
use schema_strimzi_operator.Api.RegistryTypes.{BasicAuthConfig, BearerAuthConfig, MtlsConfig}
use schema_strimzi_operator.Memory.{Pointer, Storable}
use schema_strimzi_operator.Api.DeepCopy.Structs.{
  StoredAuthConfig, StoredRegistrySpec, StoredRegistryStatus, StoredSchemaSpec, StoredSchemaStatus,
  Object, ObjectList, zero_type_meta, zero_auth_config, zero_registry_spec, zero_registry_status,
  zero_schema_spec, zero_schema_status,
}

-- The structs of k8s.io/apimachinery/pkg/apis/meta/v1 with pointers of their own: ObjectMeta and
-- ListMeta, what other cells they use, and the values that they stand for.
pub record Apimachinery : Type 1 where
  pub ObjectMeta : Type 0
  pub ListMeta : Type 0
  pub Foreign : Type 0
  pub ObjectMetaValue : Type 0
  pub ListMetaValue : Type 0
  pub zero_object_meta : ObjectMeta
  pub zero_list_meta : ListMeta

module _ (k : Apimachinery) where
  abbrev pub StoredRegistry : Type 0
  StoredRegistry = Object k.ObjectMeta StoredRegistrySpec StoredRegistryStatus

  abbrev pub StoredSchema : Type 0
  StoredSchema = Object k.ObjectMeta StoredSchemaSpec StoredSchemaStatus

  abbrev pub StoredRegistryList : Type 0
  StoredRegistryList = ObjectList k.ListMeta Pointer

  abbrev pub StoredSchemaList : Type 0
  StoredSchemaList = ObjectList k.ListMeta Pointer

  abbrev pub zero_registry : StoredRegistry
  zero_registry = record {
    type_meta = zero_type_meta;
    metadata = k.zero_object_meta;
    spec = zero_registry_spec;
    status = zero_registry_status;
  }

  abbrev pub zero_schema : StoredSchema
  zero_schema = record {
    type_meta = zero_type_meta;
    metadata = k.zero_object_meta;
    spec = zero_schema_spec;
    status = zero_schema_status;
  }

abbrev pub zero_reference : SchemaReference
zero_reference = record { name = ""; subject = ""; version = pos 0 }

pub data Cell (k : Apimachinery) : Type 0 where
  basic_cell : BasicAuthConfig → Cell k
  bearer_cell : BearerAuthConfig → Cell k
  mtls_cell : MtlsConfig → Cell k
  auth_cell : StoredAuthConfig → Cell k
  registry_spec_cell : StoredRegistrySpec → Cell k
  registry_status_cell : StoredRegistryStatus → Cell k
  registry_cell : StoredRegistry k → Cell k
  registries_cell : List (StoredRegistry k) → Cell k
  registry_list_cell : StoredRegistryList k → Cell k
  reference_cell : SchemaReference → Cell k
  references_cell : List SchemaReference → Cell k
  registry_ref_cell : SchemaRegistryRef → Cell k
  schema_spec_cell : StoredSchemaSpec → Cell k
  schema_status_cell : StoredSchemaStatus → Cell k
  schema_cell : StoredSchema k → Cell k
  schemas_cell : List (StoredSchema k) → Cell k
  schema_list_cell : StoredSchemaList k → Cell k
  integer_cell : ℤ → Cell k
  time_cell : Timestamp → Cell k
  conditions_cell : List Condition → Cell k
  foreign_cell : k.Foreign → Cell k

module _ (k : Apimachinery) where
  abbrev as_basic : Cell k → Option (BasicAuthConfig)
  as_basic (basic_cell x) = some x
  as_basic _ = none

  abbrev pub stored_basic : Storable (Cell k) (BasicAuthConfig)
  stored_basic = record {
    wrap = basic_cell;
    unwrap = as_basic;
    zero = record { secret_ref = "" };
    unwrap-wrap = λ x. refl;
  }

  abbrev as_bearer : Cell k → Option (BearerAuthConfig)
  as_bearer (bearer_cell x) = some x
  as_bearer _ = none

  abbrev pub stored_bearer : Storable (Cell k) (BearerAuthConfig)
  stored_bearer = record {
    wrap = bearer_cell;
    unwrap = as_bearer;
    zero = record { secret_ref = "" };
    unwrap-wrap = λ x. refl;
  }

  abbrev as_mtls : Cell k → Option (MtlsConfig)
  as_mtls (mtls_cell x) = some x
  as_mtls _ = none

  abbrev pub stored_mtls : Storable (Cell k) (MtlsConfig)
  stored_mtls = record {
    wrap = mtls_cell;
    unwrap = as_mtls;
    zero = record { cert_secret_ref = ""; ca_secret_ref = "" };
    unwrap-wrap = λ x. refl;
  }

  abbrev as_auth : Cell k → Option (StoredAuthConfig)
  as_auth (auth_cell x) = some x
  as_auth _ = none

  abbrev pub stored_auth : Storable (Cell k) (StoredAuthConfig)
  stored_auth = record {
    wrap = auth_cell;
    unwrap = as_auth;
    zero = zero_auth_config;
    unwrap-wrap = λ x. refl;
  }

  abbrev as_registry_spec : Cell k → Option (StoredRegistrySpec)
  as_registry_spec (registry_spec_cell x) = some x
  as_registry_spec _ = none

  abbrev pub stored_registry_spec : Storable (Cell k) (StoredRegistrySpec)
  stored_registry_spec = record {
    wrap = registry_spec_cell;
    unwrap = as_registry_spec;
    zero = zero_registry_spec;
    unwrap-wrap = λ x. refl;
  }

  abbrev as_registry_status : Cell k → Option (StoredRegistryStatus)
  as_registry_status (registry_status_cell x) = some x
  as_registry_status _ = none

  abbrev pub stored_registry_status : Storable (Cell k) (StoredRegistryStatus)
  stored_registry_status = record {
    wrap = registry_status_cell;
    unwrap = as_registry_status;
    zero = zero_registry_status;
    unwrap-wrap = λ x. refl;
  }

  abbrev as_registry : Cell k → Option (StoredRegistry k)
  as_registry (registry_cell x) = some x
  as_registry _ = none

  abbrev pub stored_registry : Storable (Cell k) (StoredRegistry k)
  stored_registry = record {
    wrap = registry_cell;
    unwrap = as_registry;
    zero = zero_registry k;
    unwrap-wrap = λ x. refl;
  }

  abbrev as_registries : Cell k → Option (List (StoredRegistry k))
  as_registries (registries_cell x) = some x
  as_registries _ = none

  abbrev pub stored_registries : Storable (Cell k) (List (StoredRegistry k))
  stored_registries = record {
    wrap = registries_cell;
    unwrap = as_registries;
    zero = [];
    unwrap-wrap = λ x. refl;
  }

  abbrev as_registry_list : Cell k → Option (StoredRegistryList k)
  as_registry_list (registry_list_cell x) = some x
  as_registry_list _ = none

  abbrev pub stored_registry_list : Storable (Cell k) (StoredRegistryList k)
  stored_registry_list = record {
    wrap = registry_list_cell;
    unwrap = as_registry_list;
    zero = record { type_meta = zero_type_meta; metadata = k.zero_list_meta; items = none };
    unwrap-wrap = λ x. refl;
  }

  abbrev as_reference : Cell k → Option (SchemaReference)
  as_reference (reference_cell x) = some x
  as_reference _ = none

  abbrev pub stored_reference : Storable (Cell k) (SchemaReference)
  stored_reference = record {
    wrap = reference_cell;
    unwrap = as_reference;
    zero = zero_reference;
    unwrap-wrap = λ x. refl;
  }

  abbrev as_references : Cell k → Option (List SchemaReference)
  as_references (references_cell x) = some x
  as_references _ = none

  abbrev pub stored_references : Storable (Cell k) (List SchemaReference)
  stored_references = record {
    wrap = references_cell;
    unwrap = as_references;
    zero = [];
    unwrap-wrap = λ x. refl;
  }

  abbrev as_registry_ref : Cell k → Option (SchemaRegistryRef)
  as_registry_ref (registry_ref_cell x) = some x
  as_registry_ref _ = none

  abbrev pub stored_registry_ref : Storable (Cell k) (SchemaRegistryRef)
  stored_registry_ref = record {
    wrap = registry_ref_cell;
    unwrap = as_registry_ref;
    zero = record { name = ""; namespace = "" };
    unwrap-wrap = λ x. refl;
  }

  abbrev as_schema_spec : Cell k → Option (StoredSchemaSpec)
  as_schema_spec (schema_spec_cell x) = some x
  as_schema_spec _ = none

  abbrev pub stored_schema_spec : Storable (Cell k) (StoredSchemaSpec)
  stored_schema_spec = record {
    wrap = schema_spec_cell;
    unwrap = as_schema_spec;
    zero = zero_schema_spec;
    unwrap-wrap = λ x. refl;
  }

  abbrev as_schema_status : Cell k → Option (StoredSchemaStatus)
  as_schema_status (schema_status_cell x) = some x
  as_schema_status _ = none

  abbrev pub stored_schema_status : Storable (Cell k) (StoredSchemaStatus)
  stored_schema_status = record {
    wrap = schema_status_cell;
    unwrap = as_schema_status;
    zero = zero_schema_status;
    unwrap-wrap = λ x. refl;
  }

  abbrev as_schema : Cell k → Option (StoredSchema k)
  as_schema (schema_cell x) = some x
  as_schema _ = none

  abbrev pub stored_schema : Storable (Cell k) (StoredSchema k)
  stored_schema = record {
    wrap = schema_cell;
    unwrap = as_schema;
    zero = zero_schema k;
    unwrap-wrap = λ x. refl;
  }

  abbrev as_schemas : Cell k → Option (List (StoredSchema k))
  as_schemas (schemas_cell x) = some x
  as_schemas _ = none

  abbrev pub stored_schemas : Storable (Cell k) (List (StoredSchema k))
  stored_schemas = record {
    wrap = schemas_cell;
    unwrap = as_schemas;
    zero = [];
    unwrap-wrap = λ x. refl;
  }

  abbrev as_schema_list : Cell k → Option (StoredSchemaList k)
  as_schema_list (schema_list_cell x) = some x
  as_schema_list _ = none

  abbrev pub stored_schema_list : Storable (Cell k) (StoredSchemaList k)
  stored_schema_list = record {
    wrap = schema_list_cell;
    unwrap = as_schema_list;
    zero = record { type_meta = zero_type_meta; metadata = k.zero_list_meta; items = none };
    unwrap-wrap = λ x. refl;
  }

  abbrev as_integer : Cell k → Option (ℤ)
  as_integer (integer_cell x) = some x
  as_integer _ = none

  abbrev pub stored_integer : Storable (Cell k) (ℤ)
  stored_integer = record {
    wrap = integer_cell;
    unwrap = as_integer;
    zero = pos 0;
    unwrap-wrap = λ x. refl;
  }

  abbrev as_time : Cell k → Option (Timestamp)
  as_time (time_cell x) = some x
  as_time _ = none

  abbrev pub stored_time : Storable (Cell k) (Timestamp)
  stored_time = record { wrap = time_cell; unwrap = as_time; zero = 0; unwrap-wrap = λ x. refl }

  abbrev as_conditions : Cell k → Option (List Condition)
  as_conditions (conditions_cell x) = some x
  as_conditions _ = none

  abbrev pub stored_conditions : Storable (Cell k) (List Condition)
  stored_conditions = record {
    wrap = conditions_cell;
    unwrap = as_conditions;
    zero = [];
    unwrap-wrap = λ x. refl;
  }
