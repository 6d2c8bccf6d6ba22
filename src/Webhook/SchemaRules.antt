-- ===== src/Webhook/SchemaRules.antt =====
-- The rules that the webhook of Schema enforces, on creation and along a history of updates.
use schema_strimzi_operator.Prelude.{
  ℕ, ◌+◌, String, true, false, Option, none, some, List, [], ◌∷◌, ◌++◌, ◌≡◌, ◌≢◌, ◌↔◌, ◌⊎◌, refl,
  sym, ◌∙◌, arith, eq_iff, ◌==◌, string_eq, not, below, All, AtLeast, below-AtLeast, iff_trans,
  iff_×, if◌then◌else◌,
}
use schema_strimzi_operator.Error.{Error}
use schema_strimzi_operator.Api.SchemaTypes.{
  Schema, SchemaSpec, SchemaReference, schema_type_avro, schema_type_json,
}
use schema_strimzi_operator.World.{
  World, IsDocumented, FieldError, required, invalid, invalid_int, forbidden,
}
use schema_strimzi_operator.Webhook.SchemaWebhook.{
  reference_errors, references_errors, is_bad_json, spec_errors, validate_schema_spec, nested,
  update_errors, validate_create, validate_update, validate_delete,
}
use schema_strimzi_operator.Webhook.Aggregates.{
  aggregate-eq-nil_iff, append-eq-nil_iff, required-append_iff, flagged-append_iff,
  flagged-eq-nil_iff,
}

abbrev pub IsValidReference : SchemaReference → Type 0
IsValidReference ref = (ref.name ≢ "") × ((ref.subject ≢ "") × AtLeast 1 ref.version)

module _ (w : World) where
  pub record IsValidSpec (spec : SchemaSpec) : Type 0 where
    pub subject : spec.subject ≢ ""
    pub schema : spec.schema ≢ ""
    pub registry : spec.registry_ref.name ≢ ""
    pub json :
        (spec.schema_type ≡ schema_type_avro) ⊎ (spec.schema_type ≡ schema_type_json)
        → w.json_valid spec.schema ≡ true
    pub references : All IsValidReference spec.references

reference_errors-eq-nil_iff :
    (i : ℕ) (ref : SchemaReference) → (reference_errors i ref ≡ []) ↔ IsValidReference ref
unfolding reference_errors
reference_errors-eq-nil_iff i ref = required-append_iff ref.name (required _ _) _ (
    required-append_iff ref.subject (required _ _) _ (
      iff_trans (flagged-eq-nil_iff (below ref.version 1) (invalid_int _ _ _))
        (below-AtLeast ref.version 1)))

changed-append_iff {κ} :
    {P : Type κ} (old new : String) (e : FieldError) (es : List FieldError)
    → (es ≡ []) ↔ P
    → ((if not (old == new) then e ∷ [] else []) ++ es ≡ []) ↔ ((old ≡ new) × P)
changed-append_iff old new e es h = iff_trans (flagged-append_iff (not (old == new)) e es h) (
    iff_× (λ p. ground (arith, eq_iff old new), λ p. ground (arith, eq_iff old new))
      (λ p. p, λ p. p))

nested-eq-nil_iff : (w : World) (o : Option Error) → (nested w o ≡ []) ↔ (o ≡ none)
unfolding nested
nested-eq-nil_iff w none = (λ h. refl, λ h. refl)
nested-eq-nil_iff w (some e) = (λ h. ground arith, λ h. ground arith)

references_errors-eq-nil_iff :
    (i : ℕ) (refs : List SchemaReference)
    → (references_errors i refs ≡ []) ↔ All IsValidReference refs
unfolding references_errors
references_errors-eq-nil_iff i [] = (λ h. tt, λ h. refl)
references_errors-eq-nil_iff i (ref ∷ refs) =
    iff_trans (append-eq-nil_iff (reference_errors i ref) _)
      (iff_× (reference_errors-eq-nil_iff i ref) (references_errors-eq-nil_iff (i + 1) refs))

module _ (w : World) where
  is_bad_json_iff :
      (spec : SchemaSpec)
      → spec.schema ≢ ""
      → (is_bad_json w spec ≡ false) ↔ (
          (spec.schema_type ≡ schema_type_avro) ⊎ (spec.schema_type ≡ schema_type_json)
          → w.json_valid spec.schema ≡ true)
  unfolding is_bad_json
  is_bad_json_iff spec h = (
    λ e d. ground (
      arith,
      eq_iff spec.schema "",
      eq_iff spec.schema_type schema_type_avro,
      eq_iff spec.schema_type schema_type_json,
    ),
    λ v. ground (
      arith,
      eq_iff spec.schema "",
      eq_iff spec.schema_type schema_type_avro,
      eq_iff spec.schema_type schema_type_json,
    ),
  )

  spec_errors-eq-nil_iff : (spec : SchemaSpec) → (spec_errors w spec ≡ []) ↔ IsValidSpec w spec
  unfolding spec_errors
  spec_errors-eq-nil_iff spec =
      let (sound, complete) = required-append_iff spec.subject (required _ _) _ (
        required-append_iff spec.schema (required _ _) _ (
          required-append_iff spec.registry_ref.name (required _ _) _ (
            flagged-append_iff (is_bad_json w spec) (invalid _ _ _) _
              (references_errors-eq-nil_iff 0 spec.references)))) in
      (
        λ h.
            let (subject, (schema, (registry, (json, references)))) = sound h in
            record {
              subject = subject;
              schema = schema;
              registry = registry;
              json = (is_bad_json_iff spec schema).0 json;
              references = references;
            },
        λ v. complete (
          v.subject,
          (v.schema, (v.registry, ((is_bad_json_iff spec v.schema).1 v.json, v.references))),
        ),
      )

  module _ (d : IsDocumented w) where
    validate_schema_spec-eq-nil_iff :
        (s : Schema) → (validate_schema_spec w s ≡ none) ↔ IsValidSpec w s.spec
    unfolding validate_schema_spec
    validate_schema_spec-eq-nil_iff s =
        iff_trans (aggregate-eq-nil_iff w d (spec_errors w s.spec)) (spec_errors-eq-nil_iff s.spec)

    update_errors-eq-nil_iff :
        (old new : Schema)
        → (update_errors w old new ≡ []) ↔ (
            (old.spec.subject ≡ new.spec.subject)
            × ((old.spec.schema_type ≡ new.spec.schema_type) × IsValidSpec w new.spec))
    unfolding update_errors
    update_errors-eq-nil_iff old new =
        changed-append_iff old.spec.subject new.spec.subject (forbidden _ _) _ (
          changed-append_iff old.spec.schema_type new.spec.schema_type (forbidden _ _) _ (
            iff_trans (nested-eq-nil_iff w (validate_schema_spec w new))
              (validate_schema_spec-eq-nil_iff new)))

    validate_update-eq-nil_iff :
        (old new : Schema)
        → (validate_update w old new ≡ none) ↔ (
            (old.spec.subject ≡ new.spec.subject)
            × ((old.spec.schema_type ≡ new.spec.schema_type) × IsValidSpec w new.spec))
    unfolding validate_update
    validate_update-eq-nil_iff old new =
        iff_trans (aggregate-eq-nil_iff w d (update_errors w old new))
          (update_errors-eq-nil_iff old new)

    -- The webhook accepts the creation of a schema exactly when its subject, its text and the name of
    -- its registry are not empty, its text is valid JSON if its type is AVRO or JSON, and each
    -- reference has a name, a subject and a version of at least 1. It accepts an update exactly when
    -- it leaves the subject and the schema type as they are and the new object would be accepted by
    -- itself. It accepts every deletion.
    pub schema_webhook-eq-nil_iff :
        (old new : Schema)
        → ((validate_create w new ≡ none) ↔ IsValidSpec w new.spec)
          × ((validate_update w old new ≡ none) ↔ (
              (old.spec.subject ≡ new.spec.subject)
              × ((old.spec.schema_type ≡ new.spec.schema_type) × IsValidSpec w new.spec)))
          × (validate_delete w old ≡ none)
    unfolding validate_create validate_delete
    schema_webhook-eq-nil_iff old new =
        (validate_schema_spec-eq-nil_iff new, validate_update-eq-nil_iff old new, refl)

-- The life of one object of the API: its creation, and updates that the webhook lets through.
pub data Admitted (w : World) (first : Schema) : Schema → Type 0 where
  created : validate_create w first ≡ none → Admitted w first first
  updated :
      {old : Schema} (new : Schema)
      → Admitted w first old
      → validate_update w old new ≡ none
      → Admitted w first new

-- However often an admitted schema is updated, it keeps the subject and the schema type of its
-- creation and stays valid.
pub Admitted-immutable :
    {w : World} {first last : Schema}
    → IsDocumented w
    → Admitted w first last
    → (last.spec.subject ≡ first.spec.subject)
      × (last.spec.schema_type ≡ first.spec.schema_type)
      × IsValidSpec w last.spec
unfolding validate_create
Admitted-immutable {w} {first} d (created ok) =
    (refl, refl, (validate_schema_spec-eq-nil_iff w d first).0 ok)
Admitted-immutable {w} d (updated {old} new before ok) =
    let (subject, type, valid) = Admitted-immutable d before in
    let (same_subject, (same_type, valid')) = (validate_update-eq-nil_iff w d old new).0 ok in
    (sym same_subject ∙ subject, sym same_type ∙ type, valid')
