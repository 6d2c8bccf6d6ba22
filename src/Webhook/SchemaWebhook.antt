-- ===== src/Webhook/SchemaWebhook.antt =====
-- internal/webhook/v1alpha1/schema_webhook.go. The admission warnings are always nil and left out.
use schema_strimzi_operator.Prelude.{
  ℕ, ◌+◌, String, Bool, Option, none, some, List, [], ◌∷◌, ◌++◌, ◌==◌, string_eq, ◌<>◌, below, not,
  ◌&&◌, ◌||◌, decimal_nat, if◌then◌else◌,
}
use schema_strimzi_operator.Error.{Error}
use schema_strimzi_operator.Api.SchemaTypes.{
  Schema, SchemaSpec, SchemaReference, schema_type_avro, schema_type_json,
}
use schema_strimzi_operator.World.{
  World, FieldError, required, invalid, invalid_int, forbidden, internal,
}

-- `refPath`, then a child of it.
abbrev pub ref_path : ℕ → String → String
ref_path i child = "spec.references[" <> decimal_nat i <> "]." <> child

-- The errors of the reference at index i.
unfoldable pub reference_errors : ℕ → SchemaReference → List FieldError
reference_errors i ref =
    (if ref.name == ""
      then required (ref_path i "name") "reference name must not be empty" ∷ []
      else [])
    ++ ((if ref.subject == ""
          then required (ref_path i "subject") "reference subject must not be empty" ∷ []
          else [])
        ++ (if below ref.version 1
            then invalid_int (ref_path i "version") ref.version "reference version must be >= 1"
              ∷ []
            else []))

-- The loop over the references, from index i on.
unfoldable pub references_errors : ℕ → List SchemaReference → List FieldError
unfolding reference_errors
references_errors i [] = []
references_errors i (ref ∷ refs) = reference_errors i ref ++ references_errors (i + 1) refs

module _ (w : World) where
  -- AVRO and JSON schemas must be valid JSON.
  unfoldable pub is_bad_json : SchemaSpec → Bool
  is_bad_json spec =
      (spec.schema_type == schema_type_avro || spec.schema_type == schema_type_json)
      && not (spec.schema == "")
      && not (w.json_valid spec.schema)

  unfoldable pub spec_errors : SchemaSpec → List FieldError
  unfolding references_errors is_bad_json
  spec_errors spec =
      (if spec.subject == "" then required "spec.subject" "subject must not be empty" ∷ [] else [])
      ++ ((if spec.schema == ""
            then required "spec.schema" "schema content must not be empty" ∷ []
            else [])
          ++ ((if spec.registry_ref.name == ""
                then required "spec.registryRef.name" "registryRef.name must not be empty" ∷ []
                else [])
              ++ ((if is_bad_json spec
                    then invalid "spec.schema" spec.schema
                        (spec.schema_type <> " schema must be valid JSON")
                      ∷ []
                    else [])
                  ++ references_errors 0 spec.references)))

  -- `if len(allErrs) > 0 { return allErrs.ToAggregate() }; return nil`
  unfoldable pub aggregate : List FieldError → Option Error
  aggregate [] = none
  aggregate (e ∷ es) = w.to_aggregate (e ∷ es)

  unfoldable pub validate_schema_spec : Schema → Option Error
  unfolding spec_errors aggregate
  validate_schema_spec s = aggregate (spec_errors s.spec)

  unfoldable pub validate_create : Schema → Option Error
  unfolding validate_schema_spec
  validate_create s = validate_schema_spec s

  unfoldable pub nested : Option Error → List FieldError
  nested none = []
  nested (some e) = internal "spec" e ∷ []

  unfoldable pub update_errors : Schema → Schema → List FieldError
  unfolding validate_schema_spec nested
  update_errors old new =
      (if not (old.spec.subject == new.spec.subject)
        then forbidden "spec.subject" "subject is immutable and cannot be changed after creation"
          ∷ []
        else [])
      ++ ((if not (old.spec.schema_type == new.spec.schema_type)
            then forbidden "spec.schemaType"
                "schemaType is immutable and cannot be changed after creation"
              ∷ []
            else [])
          ++ nested (validate_schema_spec new))

  unfoldable pub validate_update : Schema → Schema → Option Error
  unfolding update_errors aggregate
  validate_update old new = aggregate (update_errors old new)

  unfoldable pub validate_delete : Schema → Option Error
  validate_delete s = none
