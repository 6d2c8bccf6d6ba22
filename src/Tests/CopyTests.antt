-- ===== src/Tests/CopyTests.antt =====
-- A schema in memory and its copy.
use schema_strimzi_operator.Prelude.{
  ℕ, pos, String, Option, some, none, List, [], ◌∷◌, get_elem?, inl, inr, ◌≡◌, refl, arith,
}
use schema_strimzi_operator.Memory.{Heap, Pointer, Storable, return, copy_pointer, copy_slice}
use schema_strimzi_operator.Memory.Layout.{Layout}
use schema_strimzi_operator.Memory.Copying.{
  flat, flat-Copies, slice, written, PointerReads, copy_pointer-Copies, copy_slice-Copies,
}
use schema_strimzi_operator.Memory.Outside.{nothing, writes}
use schema_strimzi_operator.Api.DeepCopy.Structs.{TypeMeta}
use schema_strimzi_operator.Api.DeepCopy.Cells.{
  Apimachinery, Cell, StoredSchema, references_cell, integer_cell, schema_cell, foreign_cell,
  stored_time,
}
use schema_strimzi_operator.Api.DeepCopy.{
  Copier, RuntimeObject, copy_schema_spec, copy_schema_status,
}
use schema_strimzi_operator.Api.DeepCopy.Objects.{copy_schema, deep_copy_schema}
use schema_strimzi_operator.Api.DeepCopy.Parts.{IsDocumented}
use schema_strimzi_operator.Api.DeepCopy.Independence.{
  schema_kind, Stored, Value, stored_as, layout_of, Copied, deep_copy_object,
  deep_copy_object-Copied, deep_copy_object-Outside,
}

-- Metadata with finalizers only, which are a slice.
abbrev kinds : Apimachinery
kinds = record {
  ObjectMeta = Pointer;
  ListMeta = String;
  Foreign = List String;
  ObjectMetaValue = List String;
  ListMetaValue = String;
  zero_object_meta = none;
  zero_list_meta = "";
}

abbrev as_finalizers : Cell kinds → Option (List String)
as_finalizers (foreign_cell x) = some x
as_finalizers _ = none

abbrev stored_finalizers : Storable (Cell kinds) (List String)
stored_finalizers = record {
  wrap = foreign_cell;
  unwrap = as_finalizers;
  zero = [];
  unwrap-wrap = λ x. refl;
}

abbrev meta_layout : Layout (Cell kinds) Pointer (List String)
meta_layout = slice stored_finalizers (flat String)

abbrev list_meta_layout : Layout (Cell kinds) String String
list_meta_layout = flat String

abbrev copier : Copier kinds
copier = record {
  copy_object_meta = copy_slice stored_finalizers "" return;
  copy_list_meta = return;
  copy_condition = return;
  copy_time = copy_pointer (stored_time kinds) return;
  zero_condition = record {
    type = "";
    status = "";
    reason = "";
    message = "";
    observed_generation = pos 0;
    last_transition_time = 0;
  };
}

copier-IsDocumented : IsDocumented kinds copier meta_layout list_meta_layout
copier-IsDocumented = record {
  object_meta = copy_slice-Copies (flat String) return flat-Copies stored_finalizers "";
  list_meta = flat-Copies;
  condition = flat-Copies;
  time = copy_pointer-Copies (stored_time kinds) (flat ℕ) return flat-Copies;
}

abbrev types : TypeMeta
types = record { kind = "Schema"; api_version = "registry.strimzi.io/v1alpha1" }

-- The struct at address 3, with its finalizers at 0, its references at 1 and its id at 2.
abbrev stored : StoredSchema kinds
stored = record {
  type_meta = types;
  metadata = some 0;
  spec = record {
    subject = "users-value";
    schema_type = "AVRO";
    schema = "{}";
    references = some 1;
    registry_ref = record { name = "registry"; namespace = "" };
    compatibility_level = "BACKWARD";
  };
  status = record {
    schema_id = some 2;
    version = none;
    registered_at = none;
    observed_generation = pos 2;
    conditions = none;
  };
}

abbrev heap : Heap (Cell kinds)
heap = record {
  next = 4;
  cell = get_elem? (
      foreign_cell ("finalizer" ∷ [])
      ∷ references_cell (record { name = "id"; subject = "ids"; version = pos 1 } ∷ [])
      ∷ integer_cell (pos 7)
      ∷ schema_cell stored
      ∷ []);
}

abbrev value : Value kinds schema_kind
value = record {
  type_meta = types;
  metadata = "finalizer" ∷ [];
  spec = record {
    subject = "users-value";
    schema_type = "AVRO";
    schema = "{}";
    references = record { name = "id"; subject = "ids"; version = pos 1 } ∷ [];
    registry_ref = record { name = "registry"; namespace = "" };
    compatibility_level = "BACKWARD";
  };
  status = record {
    schema_id = some (pos 7);
    version = none;
    registered_at = none;
    observed_generation = pos 2;
    conditions = [];
  };
}

abbrev layout : Layout (Cell kinds) (Stored kinds schema_kind) (Value kinds schema_kind)
layout = layout_of kinds copier meta_layout list_meta_layout schema_kind

heap-reads : PointerReads (stored_as kinds schema_kind) layout 0 4 heap (some 3) (some value)
heap-reads = (
  stored,
  omega arith,
  omega arith,
  refl,
  (
    refl,
    (
      ("finalizer" ∷ [], omega arith, omega arith, refl, (refl, tt)),
      (
        (refl, (refl, (refl, ((_, omega arith, omega arith, refl, (refl, tt)), (refl, refl))))),
        ((pos 7, omega arith, omega arith, refl, refl), (tt, (tt, (refl, tt)))),
      ),
    ),
  ),
)

deep_copy_object-Copied_example :
    Copied
      (stored_as kinds schema_kind)
      layout
      0
      4
      heap
      3
      value
      (deep_copy_object kinds copier schema_kind)
deep_copy_object-Copied_example =
    deep_copy_object-Copied kinds copier meta_layout list_meta_layout copier-IsDocumented 0 4 heap 3
      schema_kind value (omega arith) heap-reads

abbrev heap_of : Option (RuntimeObject × Heap (Cell kinds)) → Heap (Cell kinds)
heap_of none = heap
heap_of (some (o, g)) = g

abbrev copied : Heap (Cell kinds)
copied = heap_of (deep_copy_object kinds copier schema_kind (some 3) heap)

copied-run : deep_copy_object kinds copier schema_kind (some 3) heap ≡ some (some (some 4), copied)
unfolding deep_copy_object deep_copy_schema copy_schema copy_schema_spec copy_schema_status
    copy_pointer copy_slice
copied-run = refl

-- The copy, then the original, is overwritten.
abbrev copy_lost : Heap (Cell kinds)
copy_lost = written copied 4 (integer_cell (pos 0))

abbrev original_lost : Heap (Cell kinds)
original_lost = written copied 3 (integer_cell (pos 0))

deep_copy_object-Outside_example :
    PointerReads (stored_as kinds schema_kind) layout 0 4 copy_lost (some 3) (some value)
    × PointerReads
        (stored_as kinds schema_kind)
        layout
        4
        copied.next
        original_lost
        (some 4)
        (some value)
deep_copy_object-Outside_example =
    deep_copy_object-Outside kinds copier meta_layout list_meta_layout copier-IsDocumented 0 4 heap
      3 schema_kind value 4 copied copy_lost original_lost (omega arith) heap-reads copied-run
      (writes nothing 4 (integer_cell (pos 0)) (inr (omega arith)))
      (writes nothing 3 (integer_cell (pos 0)) (inl (omega arith)))
