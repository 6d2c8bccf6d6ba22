-- ===== src/Api/DeepCopy.antt =====
-- api/v1alpha1/zz_generated.deepcopy.go. The function `copy_…` is the `DeepCopyInto` of a type: it
-- returns what becomes of `*out`. The function `deep_copy_…` is its `DeepCopy`.
pub mod Structs
pub mod Cells
pub mod Objects
pub mod Layouts
pub mod Parts
pub mod Resources
pub mod Independence
use schema_strimzi_operator.Prelude.{Option, some, none, ◌≡◌}
use schema_strimzi_operator.Api.Meta.{Condition}
use schema_strimzi_operator.Api.SchemaTypes.{SchemaReference, SchemaRegistryRef}
use schema_strimzi_operator.Api.RegistryTypes.{BasicAuthConfig, BearerAuthConfig, MtlsConfig}
use schema_strimzi_operator.Memory.{Cmd, Pointer, return, ◌>>=◌, and_then, copy_pointer, copy_slice}
use schema_strimzi_operator.Api.DeepCopy.Structs.{
  StoredAuthConfig, StoredRegistrySpec, StoredRegistryStatus, StoredSchemaSpec, StoredSchemaStatus,
}
use schema_strimzi_operator.Api.DeepCopy.Cells.{
  Apimachinery, Cell, StoredRegistry, StoredSchema, StoredRegistryList, StoredSchemaList,
  zero_registry, zero_schema, zero_reference, stored_basic, stored_bearer, stored_mtls, stored_auth,
  stored_registry_spec, stored_registry_status, stored_registry, stored_registries,
  stored_registry_list, stored_reference, stored_references, stored_registry_ref,
  stored_schema_spec, stored_schema_status, stored_schema, stored_schemas, stored_schema_list,
  stored_integer, stored_conditions,
}

-- The copies that apimachinery makes of its own types: `DeepCopyInto` of ObjectMeta, ListMeta and
-- Condition, and `DeepCopy` of *Time.
pub record Copier (k : Apimachinery) : Type 0 where
  pub copy_object_meta : k.ObjectMeta → Cmd (Cell k) k.ObjectMeta
  pub copy_list_meta : k.ListMeta → Cmd (Cell k) k.ListMeta
  pub copy_condition : Condition → Cmd (Cell k) Condition
  pub copy_time : Pointer → Cmd (Cell k) Pointer
  pub zero_condition : Condition

-- An interface value of type `runtime.Object`: nil, or a pointer to a resource, which may be nil.
abbrev pub RuntimeObject : Type 0
RuntimeObject = Option Pointer

-- `if c := in.DeepCopy(); c != nil { return c }; return nil`
abbrev pub as_object : Pointer → RuntimeObject
as_object none = none
as_object (some p) = some (some p)

module _ (k : Apimachinery) (c : Copier k) where
  unfoldable pub copy_basic_auth_config : BasicAuthConfig → Cmd (Cell k) BasicAuthConfig
  copy_basic_auth_config x = return x

  unfoldable pub deep_copy_basic_auth_config : Pointer → Cmd (Cell k) Pointer
  unfolding copy_basic_auth_config
  deep_copy_basic_auth_config = copy_pointer (stored_basic k) copy_basic_auth_config

  unfoldable pub copy_bearer_auth_config : BearerAuthConfig → Cmd (Cell k) BearerAuthConfig
  copy_bearer_auth_config x = return x

  unfoldable pub deep_copy_bearer_auth_config : Pointer → Cmd (Cell k) Pointer
  unfolding copy_bearer_auth_config
  deep_copy_bearer_auth_config = copy_pointer (stored_bearer k) copy_bearer_auth_config

  unfoldable pub copy_mtls_config : MtlsConfig → Cmd (Cell k) MtlsConfig
  copy_mtls_config x = return x

  unfoldable pub deep_copy_mtls_config : Pointer → Cmd (Cell k) Pointer
  unfolding copy_mtls_config
  deep_copy_mtls_config = copy_pointer (stored_mtls k) copy_mtls_config

  unfoldable pub copy_auth_config : StoredAuthConfig → Cmd (Cell k) StoredAuthConfig
  copy_auth_config x = do
    basic ← copy_pointer (stored_basic k) return x.basic_auth
    bearer ← copy_pointer (stored_bearer k) return x.bearer_auth
    mtls ← copy_pointer (stored_mtls k) return x.mtls
    return (record x { basic_auth = basic; bearer_auth = bearer; mtls = mtls })

  unfoldable pub deep_copy_auth_config : Pointer → Cmd (Cell k) Pointer
  unfolding copy_auth_config
  deep_copy_auth_config = copy_pointer (stored_auth k) copy_auth_config

  unfoldable pub copy_schema_reference : SchemaReference → Cmd (Cell k) SchemaReference
  copy_schema_reference x = return x

  unfoldable pub deep_copy_schema_reference : Pointer → Cmd (Cell k) Pointer
  unfolding copy_schema_reference
  deep_copy_schema_reference = copy_pointer (stored_reference k) copy_schema_reference

  unfoldable pub copy_schema_registry_ref : SchemaRegistryRef → Cmd (Cell k) SchemaRegistryRef
  copy_schema_registry_ref x = return x

  unfoldable pub deep_copy_schema_registry_ref : Pointer → Cmd (Cell k) Pointer
  unfolding copy_schema_registry_ref
  deep_copy_schema_registry_ref = copy_pointer (stored_registry_ref k) copy_schema_registry_ref

  unfoldable pub copy_schema_registry_spec : StoredRegistrySpec → Cmd (Cell k) StoredRegistrySpec
  unfolding copy_auth_config
  copy_schema_registry_spec x = do
    auth ← copy_pointer (stored_auth k) copy_auth_config x.auth
    return (record x { auth = auth })

  unfoldable pub deep_copy_schema_registry_spec : Pointer → Cmd (Cell k) Pointer
  unfolding copy_schema_registry_spec
  deep_copy_schema_registry_spec = copy_pointer (stored_registry_spec k) copy_schema_registry_spec

  unfoldable pub copy_schema_registry_status :
      StoredRegistryStatus → Cmd (Cell k) StoredRegistryStatus
  copy_schema_registry_status x = do
    last_checked ← c.copy_time x.last_checked
    conditions ← copy_slice (stored_conditions k) c.zero_condition c.copy_condition x.conditions
    return (record x { last_checked = last_checked; conditions = conditions })

  unfoldable pub deep_copy_schema_registry_status : Pointer → Cmd (Cell k) Pointer
  unfolding copy_schema_registry_status
  deep_copy_schema_registry_status =
      copy_pointer (stored_registry_status k) copy_schema_registry_status

  -- `copy(*out, *in)` copies the elements as they are.
  unfoldable pub copy_schema_spec : StoredSchemaSpec → Cmd (Cell k) StoredSchemaSpec
  copy_schema_spec x = do
    references ← copy_slice (stored_references k) zero_reference return x.references
    return (record x { references = references; registry_ref = x.registry_ref })

  unfoldable pub deep_copy_schema_spec : Pointer → Cmd (Cell k) Pointer
  unfolding copy_schema_spec
  deep_copy_schema_spec = copy_pointer (stored_schema_spec k) copy_schema_spec

  unfoldable pub copy_schema_status : StoredSchemaStatus → Cmd (Cell k) StoredSchemaStatus
  copy_schema_status x = do
    schema_id ← copy_pointer (stored_integer k) return x.schema_id
    version ← copy_pointer (stored_integer k) return x.version
    registered_at ← c.copy_time x.registered_at
    conditions ← copy_slice (stored_conditions k) c.zero_condition c.copy_condition x.conditions
    return (record x {
      schema_id = schema_id;
      version = version;
      registered_at = registered_at;
      conditions = conditions;
    })

  unfoldable pub deep_copy_schema_status : Pointer → Cmd (Cell k) Pointer
  unfolding copy_schema_status
  deep_copy_schema_status = copy_pointer (stored_schema_status k) copy_schema_status
