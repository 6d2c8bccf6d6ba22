-- ===== src/Api/DeepCopy/Resources.antt =====
-- The generated copies of the resources and of their lists.
use schema_strimzi_operator.Prelude.{List}
use schema_strimzi_operator.Api.SchemaTypes.{SchemaSpec, SchemaStatus}
use schema_strimzi_operator.Api.RegistryTypes.{SchemaRegistrySpec, SchemaRegistryStatus}
use schema_strimzi_operator.Memory.{Cmd, return, ◌>>=◌}
use schema_strimzi_operator.Memory.Layout.{
  Layout, Extends-refl, Extends-trans, Makes-return, Makes-bind, Copies, step, keep,
}
use schema_strimzi_operator.Memory.Copying.{slice, copy_slice-Copies}
use schema_strimzi_operator.Api.DeepCopy.Structs.{Object, ObjectList}
use schema_strimzi_operator.Api.DeepCopy.Cells.{
  Apimachinery, Cell, StoredRegistry, StoredSchema, StoredRegistryList, StoredSchemaList,
  zero_registry, zero_schema, stored_registries, stored_schemas,
}
use schema_strimzi_operator.Api.DeepCopy.{Copier}
use schema_strimzi_operator.Api.DeepCopy.Objects.{
  copy_schema, copy_schema_list, copy_schema_registry, copy_schema_registry_list,
}
use schema_strimzi_operator.Api.DeepCopy.Layouts.{
  registry_spec_layout, registry_status_layout, schema_spec_layout, schema_status_layout,
  object_layout, list_layout,
}
use schema_strimzi_operator.Api.DeepCopy.Parts.{
  IsDocumented, copy_schema_registry_spec-Copies, copy_schema_registry_status-Copies,
  copy_schema_spec-Copies, copy_schema_status-Copies,
}

module _ (k : Apimachinery) {M V : Type 0} (metadata : Layout (Cell k) M V)
    (copy_metadata : M → Cmd (Cell k) M) (copies_metadata : Copies metadata copy_metadata) where
  copy_object-Copies :
      {S A T B : Type 0} (spec : Layout (Cell k) S A) (status : Layout (Cell k) T B)
      (copy_spec : S → Cmd (Cell k) S) (copy_status : T → Cmd (Cell k) T)
      → Copies spec copy_spec
      → Copies status copy_status
      → Copies (object_layout k metadata spec status) (λ x. do
        m ← copy_metadata x.metadata
        s ← copy_spec x.spec
        t ← copy_status x.status
        return (record x { type_meta = x.type_meta; metadata = m; spec = s; status = t }))
  copy_object-Copies spec status copy_spec copy_status copies_spec copies_status = record {
    at = λ lo hi h x a bound (type, (rm, (rs, rt))).
        Makes-bind _ _ h
          (step metadata copy_metadata lo hi h h x.metadata a.metadata copies_metadata bound
            (Extends-refl h) rm)
          λ m g e made_m.
            Makes-bind _ _ g (step spec copy_spec lo hi h g x.spec a.spec copies_spec bound e rs)
              λ s g' e' made_s.
                Makes-bind _ _ g'
                  (step status copy_status lo hi h g' x.status a.status copies_status bound
                    (Extends-trans h g g' e e') rt)
                  λ t g'' e'' made_t. Makes-return _ g'' (
                    type,
                    (
                      keep metadata h.next g g'' m a.metadata (Extends-trans g g' g'' e' e'')
                          made_m,
                      (keep spec h.next g' g'' s a.spec e'' made_s, made_t),
                    ),
                  );
  }

  copy_list-Copies :
      {X A : Type 0} (items : Layout (Cell k) X A) (copy_items : X → Cmd (Cell k) X)
      → Copies items copy_items
      → Copies (list_layout k metadata items) (λ x. do
        m ← copy_metadata x.metadata
        is ← copy_items x.items
        return (record x { type_meta = x.type_meta; metadata = m; items = is }))
  copy_list-Copies items copy_items copies_items = record {
    at = λ lo hi h x a bound (type, (rm, ri)).
        Makes-bind _ _ h
          (step metadata copy_metadata lo hi h h x.metadata a.metadata copies_metadata bound
            (Extends-refl h) rm)
          λ m g e made_m.
            Makes-bind _ _ g
              (step items copy_items lo hi h g x.items a.items copies_items bound e ri)
              λ is g' e' made_i.
                Makes-return _ g'
                  (type, (keep metadata h.next g g' m a.metadata e' made_m, made_i));
  }

module _ (k : Apimachinery) (c : Copier k)
    (object_meta_layout : Layout (Cell k) k.ObjectMeta k.ObjectMetaValue)
    (list_meta_layout : Layout (Cell k) k.ListMeta k.ListMetaValue) where
  abbrev pub schema_layout :
      Layout (Cell k) (StoredSchema k) (Object k.ObjectMetaValue SchemaSpec SchemaStatus)
  schema_layout = object_layout k object_meta_layout (schema_spec_layout k) (schema_status_layout k)

  abbrev pub schema_list_layout :
      Layout
        (Cell k)
        (StoredSchemaList k)
        (ObjectList k.ListMetaValue (List (Object k.ObjectMetaValue SchemaSpec SchemaStatus)))
  schema_list_layout = list_layout k list_meta_layout (slice (stored_schemas k) schema_layout)

  abbrev pub registry_layout :
      Layout
        (Cell k)
        (StoredRegistry k)
        (Object k.ObjectMetaValue SchemaRegistrySpec SchemaRegistryStatus)
  registry_layout =
      object_layout k object_meta_layout (registry_spec_layout k) (registry_status_layout k)

  abbrev pub registry_list_layout : Layout (Cell k) (StoredRegistryList k) (
      ObjectList k.ListMetaValue
        (List (Object k.ObjectMetaValue SchemaRegistrySpec SchemaRegistryStatus)))
  registry_list_layout =
      list_layout k list_meta_layout (slice (stored_registries k) registry_layout)

  module _ (d : IsDocumented k c object_meta_layout list_meta_layout) where
    pub copy_schema-Copies : Copies schema_layout (copy_schema k c)
    unfolding copy_schema
    copy_schema-Copies =
        copy_object-Copies k object_meta_layout c.copy_object_meta d.object_meta
          (schema_spec_layout k) (schema_status_layout k) _ _ (copy_schema_spec-Copies k c)
          (copy_schema_status-Copies k c d.time d.condition)

    pub copy_schema_registry-Copies : Copies registry_layout (copy_schema_registry k c)
    unfolding copy_schema_registry
    copy_schema_registry-Copies =
        copy_object-Copies k object_meta_layout c.copy_object_meta d.object_meta
          (registry_spec_layout k) (registry_status_layout k) _ _
          (copy_schema_registry_spec-Copies k c)
          (copy_schema_registry_status-Copies k c d.time d.condition)

    pub copy_schema_list-Copies : Copies schema_list_layout (copy_schema_list k c)
    unfolding copy_schema_list
    copy_schema_list-Copies =
        copy_list-Copies k list_meta_layout c.copy_list_meta d.list_meta
          (slice (stored_schemas k) schema_layout) _
          (copy_slice-Copies schema_layout (copy_schema k c) copy_schema-Copies (stored_schemas k)
            (zero_schema k))

    pub copy_schema_registry_list-Copies :
        Copies registry_list_layout (copy_schema_registry_list k c)
    unfolding copy_schema_registry_list
    copy_schema_registry_list-Copies =
        copy_list-Copies k list_meta_layout c.copy_list_meta d.list_meta
          (slice (stored_registries k) registry_layout) _
          (copy_slice-Copies registry_layout (copy_schema_registry k c) copy_schema_registry-Copies
            (stored_registries k) (zero_registry k))
