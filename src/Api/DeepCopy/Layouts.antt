-- ===== src/Api/DeepCopy/Layouts.antt =====
-- The values that the structs in memory stand for.
use schema_strimzi_operator.Prelude.{ℤ, Option, List, ◌≡◌}
use schema_strimzi_operator.Api.Meta.{Condition, Timestamp}
use schema_strimzi_operator.Api.SchemaTypes.{SchemaReference, SchemaSpec, SchemaStatus}
use schema_strimzi_operator.Api.RegistryTypes.{
  BasicAuthConfig, BearerAuthConfig, MtlsConfig, AuthConfig, SchemaRegistrySpec,
  SchemaRegistryStatus,
}
use schema_strimzi_operator.Memory.{Pointer}
use schema_strimzi_operator.Memory.Layout.{Layout}
use schema_strimzi_operator.Memory.Copying.{flat, pointer, slice}
use schema_strimzi_operator.Api.DeepCopy.Structs.{
  StoredAuthConfig, StoredRegistrySpec, StoredRegistryStatus, StoredSchemaSpec, StoredSchemaStatus,
  Object, ObjectList,
}
use schema_strimzi_operator.Api.DeepCopy.Cells.{
  Apimachinery, Cell, stored_basic, stored_bearer, stored_mtls, stored_auth, stored_references,
  stored_integer, stored_time, stored_conditions,
}

module _ {C T A : Type 0} where
  -- A part without pointers, a part with a layout, and two parts.
  abbrev pub plain : {B : Type 0} → (T → B) → (A → B) → Layout C T A
  plain f g = record {
    Reads = λ lo hi h x a. f x ≡ g a;
    frame = λ lo hi lo' hi' h k x a low high same r. r;
  }

  abbrev pub field : {T' A' : Type 0} → Layout C T' A' → (T → T') → (A → A') → Layout C T A
  field l f g = record {
    Reads = λ lo hi h x a. l.Reads lo hi h (f x) (g a);
    frame = λ lo hi lo' hi' h k x a. l.frame lo hi lo' hi' h k (f x) (g a);
  }

  infixr 40 ◌&◌
  abbrev pub ◌&◌ : Layout C T A → Layout C T A → Layout C T A
  l & m = record {
    Reads = λ lo hi h x a. l.Reads lo hi h x a × m.Reads lo hi h x a;
    frame = λ lo hi lo' hi' h k x a low high same (r, s). (
      l.frame lo hi lo' hi' h k x a low high same r,
      m.frame lo hi lo' hi' h k x a low high same s,
    );
  }

module _ (k : Apimachinery) where
  abbrev pub basic_auth_layout : Layout (Cell k) Pointer (Option BasicAuthConfig)
  basic_auth_layout = pointer (stored_basic k) (flat BasicAuthConfig)

  abbrev pub bearer_auth_layout : Layout (Cell k) Pointer (Option BearerAuthConfig)
  bearer_auth_layout = pointer (stored_bearer k) (flat BearerAuthConfig)

  abbrev pub mtls_layout : Layout (Cell k) Pointer (Option MtlsConfig)
  mtls_layout = pointer (stored_mtls k) (flat MtlsConfig)

  abbrev pub integer_layout : Layout (Cell k) Pointer (Option ℤ)
  integer_layout = pointer (stored_integer k) (flat ℤ)

  abbrev pub time_layout : Layout (Cell k) Pointer (Option Timestamp)
  time_layout = pointer (stored_time k) (flat Timestamp)

  abbrev pub conditions_layout : Layout (Cell k) Pointer (List Condition)
  conditions_layout = slice (stored_conditions k) (flat Condition)

  abbrev pub references_layout : Layout (Cell k) Pointer (List SchemaReference)
  references_layout = slice (stored_references k) (flat SchemaReference)

  abbrev pub auth_config_layout : Layout (Cell k) StoredAuthConfig AuthConfig
  auth_config_layout =
      plain (λ x. x.type) (λ a. a.type)
      & field basic_auth_layout (λ x. x.basic_auth) (λ a. a.basic_auth)
      & field bearer_auth_layout (λ x. x.bearer_auth) (λ a. a.bearer_auth)
      & field mtls_layout (λ x. x.mtls) (λ a. a.mtls)

  abbrev pub registry_spec_layout : Layout (Cell k) StoredRegistrySpec SchemaRegistrySpec
  registry_spec_layout =
      plain (λ x. x.url) (λ a. a.url)
      & field (pointer (stored_auth k) auth_config_layout) (λ x. x.auth) (λ a. a.auth)
      & plain (λ x. x.insecure_skip_verify) (λ a. a.insecure_skip_verify)
      & plain (λ x. x.timeout) (λ a. a.timeout)

  abbrev pub registry_status_layout : Layout (Cell k) StoredRegistryStatus SchemaRegistryStatus
  registry_status_layout =
      plain (λ x. x.connection_status) (λ a. a.connection_status)
      & field time_layout (λ x. x.last_checked) (λ a. a.last_checked)
      & plain (λ x. x.observed_generation) (λ a. a.observed_generation)
      & field conditions_layout (λ x. x.conditions) (λ a. a.conditions)

  abbrev pub schema_spec_layout : Layout (Cell k) StoredSchemaSpec SchemaSpec
  schema_spec_layout =
      plain (λ x. x.subject) (λ a. a.subject)
      & plain (λ x. x.schema_type) (λ a. a.schema_type)
      & plain (λ x. x.schema) (λ a. a.schema)
      & field references_layout (λ x. x.references) (λ a. a.references)
      & plain (λ x. x.registry_ref) (λ a. a.registry_ref)
      & plain (λ x. x.compatibility_level) (λ a. a.compatibility_level)

  abbrev pub schema_status_layout : Layout (Cell k) StoredSchemaStatus SchemaStatus
  schema_status_layout =
      field integer_layout (λ x. x.schema_id) (λ a. a.schema_id)
      & field integer_layout (λ x. x.version) (λ a. a.version)
      & field time_layout (λ x. x.registered_at) (λ a. a.registered_at)
      & plain (λ x. x.observed_generation) (λ a. a.observed_generation)
      & field conditions_layout (λ x. x.conditions) (λ a. a.conditions)

  -- The layout of a resource, over that of its metadata, and of a list of resources.
  module _ {M V : Type 0} (metadata : Layout (Cell k) M V) where
    abbrev pub object_layout :
        {S A T B : Type 0}
        → Layout (Cell k) S A
        → Layout (Cell k) T B
        → Layout (Cell k) (Object M S T) (Object V A B)
    object_layout spec status =
        plain (λ x. x.type_meta) (λ a. a.type_meta)
        & field metadata (λ x. x.metadata) (λ a. a.metadata)
        & field spec (λ x. x.spec) (λ a. a.spec)
        & field status (λ x. x.status) (λ a. a.status)

    abbrev pub list_layout :
        {X A : Type 0} → Layout (Cell k) X A → Layout (Cell k) (ObjectList M X) (ObjectList V A)
    list_layout items =
        plain (λ x. x.type_meta) (λ a. a.type_meta)
        & field metadata (λ x. x.metadata) (λ a. a.metadata)
        & field items (λ x. x.items) (λ a. a.items)
