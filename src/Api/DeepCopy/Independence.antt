-- ===== src/Api/DeepCopy/Independence.antt =====
-- The generated copies of the resources are independent of the originals.
use schema_strimzi_operator.Prelude.{
  ℕ, ◌≤◌, inl, inr, List, Option, Option-cases, some, none, ◌≡◌, refl, sym, arith, ◌∙◌,
}
use mathlib.Core.Path.{subst}
use schema_strimzi_operator.Api.SchemaTypes.{SchemaSpec, SchemaStatus}
use schema_strimzi_operator.Api.RegistryTypes.{SchemaRegistrySpec, SchemaRegistryStatus}
use schema_strimzi_operator.Memory.{Heap, Cmd, Pointer, Storable, return, ◌>>=◌}
use schema_strimzi_operator.Memory.Layout.{Layout, Copies, carry}
use schema_strimzi_operator.Memory.Copying.{
  pointer, PointerReads, copy_pointer-nil, copy_pointer-Copies,
}
use schema_strimzi_operator.Api.DeepCopy.Structs.{Object, ObjectList}
use schema_strimzi_operator.Api.DeepCopy.Cells.{
  Apimachinery, Cell, StoredRegistry, StoredSchema, StoredRegistryList, StoredSchemaList,
  stored_registry, stored_registry_list, stored_schema, stored_schema_list,
}
use schema_strimzi_operator.Api.DeepCopy.{Copier, RuntimeObject, as_object}
use schema_strimzi_operator.Api.DeepCopy.Objects.{
  copy_schema, deep_copy_schema, deep_copy_schema_object, copy_schema_list, deep_copy_schema_list,
  deep_copy_schema_list_object, copy_schema_registry, deep_copy_schema_registry,
  deep_copy_schema_registry_object, copy_schema_registry_list, deep_copy_schema_registry_list,
  deep_copy_schema_registry_list_object,
}
use schema_strimzi_operator.Api.DeepCopy.Parts.{IsDocumented}
use schema_strimzi_operator.Memory.Outside.{Outside, Outside-Reads}
use schema_strimzi_operator.Api.DeepCopy.Resources.{
  schema_layout, schema_list_layout, registry_layout, registry_list_layout, copy_schema-Copies,
  copy_schema_list-Copies, copy_schema_registry-Copies, copy_schema_registry_list-Copies,
}

-- `DeepCopyObject` of nil is nil. Of the pointer p it returns a pointer, and this stands for the same
-- value in memory that was unused; p still stands for it too.
module _ {C T A : Type 0} (s : Storable C T) (l : Layout C T A) (lo hi : ℕ) (h : Heap C) (p : ℕ)
    (a : A) where
  abbrev pub Copied : (Pointer → Cmd C RuntimeObject) → Type 0
  Copied copy =
      (copy none h ≡ some (none, h))
      × (q : ℕ) × (g : Heap C) × (copy (some p) h ≡ some (some (some q), g))
      × PointerReads s l h.next g.next g (some q) (some a)
      × PointerReads s l lo hi g (some p) (some a)

  as_object-nil :
      (deep_copy : Pointer → Cmd C Pointer)
      → deep_copy none h ≡ some (none, h)
      → (deep_copy none >>= λ q. return (as_object q)) h ≡ some (none, h)
  as_object-nil deep_copy nil = rw nil refl

  as_object-Copied :
      (deep_copy : Pointer → Cmd C Pointer)
      → deep_copy none h ≡ some (none, h)
      → Copies (pointer s l) deep_copy
      → hi ≤ h.next
      → PointerReads s l lo hi h (some p) (some a)
      → Copied (λ x. deep_copy x >>= λ q. return (as_object q))
  as_object-Copied deep_copy nil copies bound r =
      let made = copies.at lo hi h (some p) (some a) bound r in
      let original =
        carry (pointer s l) lo hi lo hi h made.heap (some p) (some a) (omega arith) (omega arith)
          bound made.extends r in
      let reads = λ (v : Pointer). PointerReads s l h.next made.heap.next made.heap v (some a) in
      elim (Option-cases made.value) [
        | inl empty ↦ absurd (subst reads empty made.holds)
        | inr (q, is) ↦ (
          as_object-nil deep_copy nil,
          q,
          made.heap,
          rw (made.run, is) refl,
          subst reads is made.holds,
          original,
        )
      ]

-- P holds of the pointer that has been returned and of the heap.
abbrev Returned : {C : Type 0} → (ℕ → Heap C → Type 0) → Option (RuntimeObject × Heap C) → Type 0
Returned P (some (some (some q), g)) = P q g
Returned P _ = ⊥

-- The resources that are a `runtime.Object`.
pub data ResourceKind : Type 0 where
  schema_kind schema_list_kind schema_registry_kind schema_registry_list_kind : ResourceKind

module _ (k : Apimachinery) where
  abbrev pub Stored : ResourceKind → Type 0
  Stored schema_kind = StoredSchema k
  Stored schema_list_kind = StoredSchemaList k
  Stored schema_registry_kind = StoredRegistry k
  Stored schema_registry_list_kind = StoredRegistryList k

  abbrev pub Value : ResourceKind → Type 0
  Value schema_kind = Object k.ObjectMetaValue SchemaSpec SchemaStatus
  Value schema_list_kind =
      ObjectList k.ListMetaValue (List (Object k.ObjectMetaValue SchemaSpec SchemaStatus))
  Value schema_registry_kind = Object k.ObjectMetaValue SchemaRegistrySpec SchemaRegistryStatus
  Value schema_registry_list_kind =
      ObjectList k.ListMetaValue
        (List (Object k.ObjectMetaValue SchemaRegistrySpec SchemaRegistryStatus))

  abbrev pub stored_as : (kind : ResourceKind) → Storable (Cell k) (Stored kind)
  stored_as schema_kind = stored_schema k
  stored_as schema_list_kind = stored_schema_list k
  stored_as schema_registry_kind = stored_registry k
  stored_as schema_registry_list_kind = stored_registry_list k

  module _ (c : Copier k) where
    -- A call of `DeepCopyObject` goes to the method of the kind.
    unfoldable pub deep_copy_object : ResourceKind → Pointer → Cmd (Cell k) RuntimeObject
    unfolding deep_copy_schema_object deep_copy_schema_list_object deep_copy_schema_registry_object
        deep_copy_schema_registry_list_object
    deep_copy_object schema_kind = deep_copy_schema_object k c
    deep_copy_object schema_list_kind = deep_copy_schema_list_object k c
    deep_copy_object schema_registry_kind = deep_copy_schema_registry_object k c
    deep_copy_object schema_registry_list_kind = deep_copy_schema_registry_list_object k c

    module _ (object_meta_layout : Layout (Cell k) k.ObjectMeta k.ObjectMetaValue)
        (list_meta_layout : Layout (Cell k) k.ListMeta k.ListMetaValue) where
      abbrev pub layout_of : (kind : ResourceKind) → Layout (Cell k) (Stored kind) (Value kind)
      layout_of schema_kind = schema_layout k c object_meta_layout list_meta_layout
      layout_of schema_list_kind = schema_list_layout k c object_meta_layout list_meta_layout
      layout_of schema_registry_kind = registry_layout k c object_meta_layout list_meta_layout
      layout_of schema_registry_list_kind =
          registry_list_layout k c object_meta_layout list_meta_layout

      module _ (d : IsDocumented k c object_meta_layout list_meta_layout) (lo hi : ℕ)
          (h : Heap (Cell k)) (p : ℕ) where
        -- Let a pointer stand for a resource or a list of resources, in used memory. Then each kind's
        -- `DeepCopyObject` returns, without a fault, a pointer that stands for the same value,
        -- in memory that was unused before, and the original still stands for the value.
        -- Of nil it returns a nil object, and never an object that holds nil.
        pub deep_copy_object-Copied :
            (kind : ResourceKind) (a : Value kind)
            → hi ≤ h.next
            → PointerReads (stored_as kind) (layout_of kind) lo hi h (some p) (some a)
            → Copied (stored_as kind) (layout_of kind) lo hi h p a (deep_copy_object kind)
        unfolding deep_copy_object
        deep_copy_object-Copied schema_kind a bound r =
            as_object-Copied _ _ lo hi h p a (deep_copy_schema k c)
              (copy_pointer-nil (stored_schema k) (copy_schema k c) h)
              (copy_pointer-Copies _ _ _ (copy_schema-Copies k c _ _ d)) bound r
        deep_copy_object-Copied schema_list_kind a bound r =
            as_object-Copied _ _ lo hi h p a (deep_copy_schema_list k c)
              (copy_pointer-nil (stored_schema_list k) (copy_schema_list k c) h)
              (copy_pointer-Copies _ _ _ (copy_schema_list-Copies k c _ _ d)) bound r
        deep_copy_object-Copied schema_registry_kind a bound r =
            as_object-Copied _ _ lo hi h p a (deep_copy_schema_registry k c)
              (copy_pointer-nil (stored_registry k) (copy_schema_registry k c) h)
              (copy_pointer-Copies _ _ _ (copy_schema_registry-Copies k c _ _ d)) bound r
        deep_copy_object-Copied schema_registry_list_kind a bound r =
            as_object-Copied _ _ lo hi h p a (deep_copy_schema_registry_list k c)
              (copy_pointer-nil (stored_registry_list k) (copy_schema_registry_list k c) h)
              (copy_pointer-Copies _ _ _ (copy_schema_registry_list-Copies k c _ _ d)) bound r

        -- Let the copy be made of a pointer that stands for a resource or a list of resources, in used
        -- memory. After any allocations and writes outside of the original's memory, to the copy for
        -- instance, the original stands for the same value; and after any outside of the memory that
        -- was used for the copy, to the original for instance, the copy does.
        pub deep_copy_object-Outside :
            (kind : ResourceKind) (a : Value kind) (q : ℕ) (g after after' : Heap (Cell k))
            → hi ≤ h.next
            → PointerReads (stored_as kind) (layout_of kind) lo hi h (some p) (some a)
            → deep_copy_object kind (some p) h ≡ some (some (some q), g)
            → Outside lo hi g after
            → Outside h.next g.next g after'
            → PointerReads (stored_as kind) (layout_of kind) lo hi after (some p) (some a)
              × PointerReads
                  (stored_as kind)
                  (layout_of kind)
                  h.next
                  g.next
                  after'
                  (some q)
                  (some a)
        deep_copy_object-Outside kind a q g after after' bound r run original_kept copy_kept =
            let (nil, q', g', run', copied, original) = deep_copy_object-Copied kind a bound r in
            let l = pointer (stored_as kind) (layout_of kind) in
            let P = λ (q : ℕ) (g : Heap (Cell k)).
              l.Reads h.next g.next g (some q) (some a) × l.Reads lo hi g (some p) (some a) in
            let (copied, original) : P q g =
              subst (Returned P) (sym run' ∙ run) (copied, original) in
            let (x, low, high, there, reads) = copied in
            (
              Outside-Reads lo hi l (some p) (some a) original_kept (omega arith) original,
              Outside-Reads h.next g.next l (some q) (some a) copy_kept (omega arith) copied,
            )
