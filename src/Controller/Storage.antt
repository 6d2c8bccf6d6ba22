-- ===== src/Controller/Storage.antt =====
-- The API server as the store of one schema that nobody else changes: what its documentation
-- promises of reads, updates, the status subresource and resource versions.
use schema_strimzi_operator.Prelude.{
  String, Bool, true, false, List, Option, some, none, [], ◌∷◌, ◌≡◌, refl, arith, eq_refl, eq_iff,
  Bool-cases, inl, inr, ◌==◌, string_eq, if◌then◌else◌, ◌∙◌, sym,
}
use schema_strimzi_operator.Error.{Result, not_found, ok, err}
use schema_strimzi_operator.Api.Meta.{ObjectKey, Timestamp, is_zero}
use schema_strimzi_operator.Api.SchemaTypes.{Schema}
use schema_strimzi_operator.World.{
  World, Event, Trace, got_schema, updated_schema, updated_schema_status, got_registry, got_secret,
  sent, read_clock,
}
use schema_strimzi_operator.Controller.Effects.{key_of}
use schema_strimzi_operator.Controller.Quiet.{KeepsSent}
use schema_strimzi_operator.Controller.SchemaController.Parts.{IsQuiet}

abbrev pub at_version : String → Schema → Schema
at_version v s = record s { metadata = record s.metadata { resource_version = v } }

abbrev pub left_with : List String → Schema → Option Schema
left_with [] s = none
left_with (f ∷ fs) s = some s

-- What an update leaves: a schema that is being deleted goes when it has no finalizer any more.
abbrev pub left : Schema → Option Schema
left s = if is_zero s.metadata.deletion_timestamp then some s else left_with s.metadata.finalizers s

abbrev updated : Schema → Option Schema → Option Schema
updated s none = none
updated s (some before) = left (record s { status = before.status })

abbrev updated_status : Schema → Option Schema → Option Schema
updated_status s none = none
updated_status s (some before) = some (record before { status = s.status })

module _ (key : ObjectKey) where
  -- The schema is the one with the key.
  abbrev pub is_kept : Schema → Bool
  is_kept s = if s.metadata.name == key.name then s.metadata.namespace == key.namespace else false

  -- An accepted update of the schema changes the resource version; no other event does.
  abbrev pub changes : Event → Bool
  changes (updated_schema s none) = is_kept s
  changes (updated_schema_status s none) = is_kept s
  changes _ = false

  -- What is stored after a history, where `first` was stored before it. An update leaves the status
  -- as it is, and an update of the status leaves everything else as it is.
  abbrev pub stored : Schema → Trace → Option Schema
  stored first [] = some first
  stored first (updated_schema s none ∷ t) =
      let before = stored first t in if is_kept s then updated s before else before
  stored first (updated_schema_status s none ∷ t) =
      let before = stored first t in if is_kept s then updated_status s before else before
  stored first (_ ∷ t) = stored first t

  pub is_kept-key : (s : Schema) → key_of s.metadata ≡ key → is_kept s ≡ true
  is_kept-key s same = ground (arith, eq_refl key.name, eq_refl key.namespace)

  pub is_kept-key_of : (s : Schema) → is_kept s ≡ true → key_of s.metadata ≡ key
  is_kept-key_of s h = elim (Bool-cases (s.metadata.name == key.name)) [
    | inl name ↦
        let space : (s.metadata.namespace == key.namespace) ≡ true = rw name at h in
        rw
          (
            (eq_iff s.metadata.name key.name).0 name,
            (eq_iff s.metadata.namespace key.namespace).0 space,
          )
          refl
    | inr other ↦ absurd (ground arith)
  ]

-- The server keeps the schema with this key. A read gives what is stored, with its present version:
-- the operator reads through a cache, which is taken to be up to date. An update of a stored schema
-- that comes with this version is accepted, and changes it.
pub record IsServer (w : World) (key : ObjectKey) (version : Trace → String) (first : Schema)
    : Type 0 where
  pub read :
      (t : Trace) (s : Schema)
      → stored key first t ≡ some s
      → w.get_schema t key ≡ ok (at_version (version t) s)
  pub read_gone :
      (t : Trace)
      → stored key first t ≡ none
      → (text : String) × (w.get_schema t key ≡ err (not_found text))
  pub update :
      (t : Trace) (s before : Schema)
      → stored key first t ≡ some before
      → key_of s.metadata ≡ key
      → s.metadata.resource_version ≡ version t
      → w.update_schema t s ≡ none
  pub update_status :
      (t : Trace) (s before : Schema)
      → stored key first t ≡ some before
      → key_of s.metadata ≡ key
      → s.metadata.resource_version ≡ version t
      → w.update_schema_status t s ≡ none
  pub steady : (e : Event) (t : Trace) → changes key e ≡ false → version (e ∷ t) ≡ version t

module _ (w : World) (key : ObjectKey) (version : Trace → String) (first : Schema)
    (server : IsServer w key version first) where
  -- What is stored, and its version.
  pub record IsStored (s : Schema) (v : String) (t : Trace) : Type 0 where
    pub content : stored key first t ≡ some s
    pub current : version t ≡ v

  module _ (s : Schema) (v : String) where
    pub quiet : IsQuiet (IsStored s v)
    quiet = record {
      registry = λ k r t h. record {
        content = h.content;
        current = server.steady (got_registry k r) t refl ∙ h.current;
      };
      secret = λ k r t h. record {
        content = h.content;
        current = server.steady (got_secret k r) t refl ∙ h.current;
      };
    }

    pub on_sent : KeepsSent (λ _. Unit {0}) (IsStored s v)
    on_sent = record {
      at = λ client req r t _ h. record {
        content = h.content;
        current = server.steady (sent client req r) t refl ∙ h.current;
      };
    }

    pub IsStored-got :
        (k : ObjectKey) (r : Result Schema) (t : Trace)
        → IsStored s v t
        → IsStored s v (got_schema k r ∷ t)
    IsStored-got k r t h = record {
      content = h.content;
      current = server.steady (got_schema k r) t refl ∙ h.current;
    }

    pub IsStored-clock :
        (time : Timestamp) (t : Trace) → IsStored s v t → IsStored s v (read_clock time ∷ t)
    IsStored-clock time t h = record {
      content = h.content;
      current = server.steady (read_clock time) t refl ∙ h.current;
    }

    pub IsStored-read : (t : Trace) → IsStored s v t → w.get_schema t key ≡ ok (at_version v s)
    IsStored-read t h = rw h.current at (server.read t s h.content)

    -- The status of the stored schema can be written.
    pub IsStored-accepts :
        (t : Trace) (x : Schema)
        → IsStored s v t
        → key_of x.metadata ≡ key
        → x.metadata.resource_version ≡ v
        → w.update_schema_status t x ≡ none
    IsStored-accepts t x h same fits =
        server.update_status t x s h.content same (fits ∙ sym h.current)

    -- So can the rest.
    pub IsStored-takes :
        (t : Trace) (x : Schema)
        → IsStored s v t
        → key_of x.metadata ≡ key
        → x.metadata.resource_version ≡ v
        → w.update_schema t x ≡ none
    IsStored-takes t x h same fits = server.update t x s h.content same (fits ∙ sym h.current)

    pub stored-updated :
        (t : Trace) (x : Schema)
        → IsStored s v t
        → key_of x.metadata ≡ key
        → stored key first (updated_schema x none ∷ t) ≡ left (record x { status = s.status })
    stored-updated t x h same = rw (is_kept-key key x same, h.content) refl

    pub stored-updated_status :
        (t : Trace) (x : Schema)
        → IsStored s v t
        → key_of x.metadata ≡ key
        → stored key first (updated_schema_status x none ∷ t)
          ≡ some (record s { status = x.status })
    stored-updated_status t x h same = rw (is_kept-key key x same, h.content) refl
