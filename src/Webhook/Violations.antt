-- ===== src/Webhook/Violations.antt =====
-- Which errors the webhook of Schema reports, and where.
use schema_strimzi_operator.Prelude.{
  ℕ, ℤ, zero, suc, ◌+◌, String, Bool, true, false, some, List, [], ◌∷◌, ◌++◌, ◌≡◌, ◌≢◌, ◌↔◌, ◌⊎◌,
  inl, inr, refl, arith, eq_iff, ◌==◌, string_eq, ◌<>◌, below, AtLeast, below-AtLeast, Any,
  Any-append_iff, get_elem?, iff_trans, if◌then◌else◌,
}
use mathlib.Core.Path.{subst}
use schema_strimzi_operator.Api.SchemaTypes.{
  SchemaSpec, SchemaReference, schema_type_avro, schema_type_json,
}
use schema_strimzi_operator.World.{World, FieldError, required, invalid, invalid_int}
use schema_strimzi_operator.Webhook.SchemaWebhook.{
  ref_path, reference_errors, references_errors, is_bad_json, spec_errors,
}

-- The error e is about a fault of the reference at index i.
abbrev pub IsReferenceFault : ℕ → SchemaReference → FieldError → Type 0
IsReferenceFault i ref e =
    ((ref.name ≡ "") × (required (ref_path i "name") "reference name must not be empty" ≡ e))
    ⊎ (((ref.subject ≡ "")
          × (required (ref_path i "subject") "reference subject must not be empty" ≡ e))
        ⊎ ((¬ AtLeast 1 ref.version)
            × (invalid_int (ref_path i "version") ref.version "reference version must be >= 1"
                ≡ e)))

-- It is about a fault of one of the references, which have the indices from i on.
abbrev pub IsReferencesFault : ℕ → List SchemaReference → FieldError → Type 0
IsReferencesFault i refs e =
    (j : ℕ) × (ref : SchemaReference) × (get_elem? refs j ≡ some ref)
    × IsReferenceFault (i + j) ref e

-- It is about a fault of the spec.
abbrev pub IsFault : World → SchemaSpec → FieldError → Type 0
IsFault w spec e =
    ((spec.subject ≡ "") × (required "spec.subject" "subject must not be empty" ≡ e))
    ⊎ (((spec.schema ≡ "") × (required "spec.schema" "schema content must not be empty" ≡ e))
        ⊎ (((spec.registry_ref.name ≡ "")
              × (required "spec.registryRef.name" "registryRef.name must not be empty" ≡ e))
            ⊎ (((((spec.schema_type ≡ schema_type_avro) ⊎ (spec.schema_type ≡ schema_type_json))
                    × (spec.schema ≢ "")
                    × (w.json_valid spec.schema ≡ false))
                  × (invalid "spec.schema" spec.schema
                        (spec.schema_type <> " schema must be valid JSON")
                      ≡ e))
                ⊎ IsReferencesFault 0 spec.references e)))

module _ (e : FieldError) where
  abbrev pub Reports : List FieldError → Type 0
  Reports es = Any (λ x. x ≡ e) es

  -- An error under a test, before the others.
  pub flagged_iff :
      {P Q : Type 0} (b : Bool) (x : FieldError) (es : List FieldError)
      → (b ≡ true) ↔ P
      → Reports es ↔ Q
      → Reports ((if b then x ∷ [] else []) ++ es) ↔ ((P × (x ≡ e)) ⊎ Q)
  flagged_iff true x es p q = (
    λ h. elim h [ inl same ↦ inl (p.0 refl, same) | inr m ↦ inr (q.0 m) ],
    λ h. elim h [ inl (there, same) ↦ inl same | inr m ↦ inr (q.1 m) ],
  )
  flagged_iff false x es p q = (
    λ h. inr (q.0 h),
    λ h. elim h [ inl (there, same) ↦ absurd (ground (arith, p.1 there)) | inr m ↦ q.1 m ],
  )

  pub required_iff :
      {Q : Type 0} (s : String) (x : FieldError) (es : List FieldError)
      → Reports es ↔ Q
      → Reports ((if s == "" then x ∷ [] else []) ++ es) ↔ (((s ≡ "") × (x ≡ e)) ⊎ Q)
  required_iff s x es = flagged_iff (s == "") x es (eq_iff s "")

  pub last_iff :
      {P : Type 0} (b : Bool) (x : FieldError)
      → (b ≡ true) ↔ P
      → Reports (if b then x ∷ [] else []) ↔ (P × (x ≡ e))
  last_iff true x p =
      (λ h. elim h [ inl same ↦ (p.0 refl, same) | inr n ↦ absurd n ], λ (there, same). inl same)
  last_iff false x p = (λ h. absurd h, λ (there, same). absurd (ground (arith, p.1 there)))

  is_bad_json_iff :
      (w : World) (spec : SchemaSpec)
      → (is_bad_json w spec ≡ true) ↔ (
          ((spec.schema_type ≡ schema_type_avro) ⊎ (spec.schema_type ≡ schema_type_json))
          × (spec.schema ≢ "")
          × (w.json_valid spec.schema ≡ false))
  unfolding is_bad_json
  is_bad_json_iff w spec =
      let text = eq_iff spec.schema "" in
      let avro = eq_iff spec.schema_type schema_type_avro in
      let json = eq_iff spec.schema_type schema_type_json in
      (λ h. ground (arith, text, avro, json), λ h. ground (arith, text, avro, json))

  pub below_iff : (a : ℤ) (n : ℕ) → (below a n ≡ true) ↔ (¬ AtLeast n a)
  below_iff a n =
      let lem = below-AtLeast a n in (λ h. ground (arith, lem), λ h. ground (arith, lem))

  reference_errors_iff :
      (i : ℕ) (ref : SchemaReference) → Reports (reference_errors i ref) ↔ IsReferenceFault i ref e
  unfolding reference_errors
  reference_errors_iff i ref =
      required_iff ref.name _ _
        (required_iff ref.subject _ _ (last_iff (below ref.version 1) _ (below_iff ref.version 1)))

  reindex :
      (i j : ℕ) (ref : SchemaReference)
      → i ≡ j
      → IsReferenceFault i ref e
      → IsReferenceFault j ref e
  reindex i j ref = subst λ k. IsReferenceFault k ref e

  -- A fault of one of the references is one of the first, or of those after it.
  located :
      (i : ℕ) (ref : SchemaReference) (refs : List SchemaReference) (j : ℕ)
      (other : SchemaReference)
      → get_elem? (ref ∷ refs) j ≡ some other
      → IsReferenceFault (i + j) other e
      → IsReferenceFault i ref e ⊎ IsReferencesFault (i + 1) refs e
  located i ref refs zero other there fault =
      let same : other ≡ ref = cc there in
      inl (subst (λ r. IsReferenceFault i r e) same (reindex (i + 0) i other (omega arith) fault))
  located i ref refs (suc j) other there fault =
      inr (j, other, there, reindex (i + suc j) (i + 1 + j) other (omega arith) fault)

  references_errors_iff :
      (i : ℕ) (refs : List SchemaReference)
      → Reports (references_errors i refs) ↔ IsReferencesFault i refs e
  unfolding references_errors
  references_errors_iff i [] = (λ h. absurd h, λ (j, ref, there, fault). absurd (cc there))
  references_errors_iff i (ref ∷ refs) =
      let here = reference_errors_iff i ref in
      let rest = references_errors_iff (i + 1) refs in
      iff_trans (Any-append_iff (λ x. x ≡ e) (reference_errors i ref) _) (
        λ h. elim h [
          | inl m ↦ (0, ref, refl, reindex i (i + 0) ref (omega arith) (here.0 m))
          | inr m ↦
              let (j, other, there, fault) = rest.0 m in
              (suc j, other, there, reindex (i + 1 + j) (i + suc j) other (omega arith) fault)
        ],
        λ (j, other, there, fault). elim (located i ref refs j other there fault) [
          | inl first ↦ inl (here.1 first)
          | inr later ↦ inr (rest.1 later)
        ],
      )

  -- The webhook reports an error for a schema exactly if it is about a fault of the spec: an empty
  -- subject, text or name of the registry, a text that is not empty and no valid JSON where the
  -- type is AVRO or JSON, or an empty name, an empty subject or a version below 1 of the reference
  -- at some index, with this index in its path.
  pub spec_errors_iff :
      (w : World) (spec : SchemaSpec) → Reports (spec_errors w spec) ↔ IsFault w spec e
  unfolding spec_errors
  spec_errors_iff w spec = required_iff spec.subject _ _ (
      required_iff spec.schema _ _ (
        required_iff spec.registry_ref.name _ _ (
          flagged_iff (is_bad_json w spec) _ _ (is_bad_json_iff w spec)
            (references_errors_iff 0 spec.references))))
