-- ===== src/Api/DeepCopy/Objects.antt =====
-- api/v1alpha1/zz_generated.deepcopy.go: the resources and their lists.
use schema_strimzi_operator.Memory.{Cmd, Pointer, return, ◌>>=◌, copy_pointer, copy_slice}
use schema_strimzi_operator.Api.DeepCopy.Cells.{
  Apimachinery, Cell, StoredRegistry, StoredSchema, StoredRegistryList, StoredSchemaList,
  zero_registry, zero_schema, stored_registry, stored_registries, stored_registry_list,
  stored_schema, stored_schemas, stored_schema_list,
}
use schema_strimzi_operator.Api.DeepCopy.{
  Copier, RuntimeObject, as_object, copy_schema_spec, copy_schema_status, copy_schema_registry_spec,
  copy_schema_registry_status,
}

module _ (k : Apimachinery) (c : Copier k) where
  unfoldable pub copy_schema : StoredSchema k → Cmd (Cell k) (StoredSchema k)
  copy_schema x = do
    metadata ← c.copy_object_meta x.metadata
    spec ← copy_schema_spec k c x.spec
    status ← copy_schema_status k c x.status
    return (record x { type_meta = x.type_meta; metadata = metadata; spec = spec; status = status })

  unfoldable pub deep_copy_schema : Pointer → Cmd (Cell k) Pointer
  unfolding copy_schema
  deep_copy_schema = copy_pointer (stored_schema k) copy_schema

  unfoldable pub deep_copy_schema_object : Pointer → Cmd (Cell k) RuntimeObject
  unfolding deep_copy_schema
  deep_copy_schema_object p = do q ← deep_copy_schema p; return (as_object q)

  unfoldable pub copy_schema_list : StoredSchemaList k → Cmd (Cell k) (StoredSchemaList k)
  unfolding copy_schema
  copy_schema_list x = do
    metadata ← c.copy_list_meta x.metadata
    items ← copy_slice (stored_schemas k) (zero_schema k) copy_schema x.items
    return (record x { type_meta = x.type_meta; metadata = metadata; items = items })

  unfoldable pub deep_copy_schema_list : Pointer → Cmd (Cell k) Pointer
  unfolding copy_schema_list
  deep_copy_schema_list = copy_pointer (stored_schema_list k) copy_schema_list

  unfoldable pub deep_copy_schema_list_object : Pointer → Cmd (Cell k) RuntimeObject
  unfolding deep_copy_schema_list
  deep_copy_schema_list_object p = do q ← deep_copy_schema_list p; return (as_object q)

  unfoldable pub copy_schema_registry : StoredRegistry k → Cmd (Cell k) (StoredRegistry k)
  copy_schema_registry x = do
    metadata ← c.copy_object_meta x.metadata
    spec ← copy_schema_registry_spec k c x.spec
    status ← copy_schema_registry_status k c x.status
    return (record x { type_meta = x.type_meta; metadata = metadata; spec = spec; status = status })

  unfoldable pub deep_copy_schema_registry : Pointer → Cmd (Cell k) Pointer
  unfolding copy_schema_registry
  deep_copy_schema_registry = copy_pointer (stored_registry k) copy_schema_registry

  unfoldable pub deep_copy_schema_registry_object : Pointer → Cmd (Cell k) RuntimeObject
  unfolding deep_copy_schema_registry
  deep_copy_schema_registry_object p = do q ← deep_copy_schema_registry p; return (as_object q)

  unfoldable pub copy_schema_registry_list :
      StoredRegistryList k → Cmd (Cell k) (StoredRegistryList k)
  unfolding copy_schema_registry
  copy_schema_registry_list x = do
    metadata ← c.copy_list_meta x.metadata
    items ← copy_slice (stored_registries k) (zero_registry k) copy_schema_registry x.items
    return (record x { type_meta = x.type_meta; metadata = metadata; items = items })

  unfoldable pub deep_copy_schema_registry_list : Pointer → Cmd (Cell k) Pointer
  unfolding copy_schema_registry_list
  deep_copy_schema_registry_list = copy_pointer (stored_registry_list k) copy_schema_registry_list

  unfoldable pub deep_copy_schema_registry_list_object : Pointer → Cmd (Cell k) RuntimeObject
  unfolding deep_copy_schema_registry_list
  deep_copy_schema_registry_list_object p = do
    q ← deep_copy_schema_registry_list p
    return (as_object q)
