-- ===== src/Webhook/Aggregates.antt =====
-- A list of errors and its aggregate.
use schema_strimzi_operator.Prelude.{
  String, Bool, true, false, none, List, [], ◌∷◌, ◌++◌, ◌≡◌, ◌≢◌, ◌↔◌, refl, arith, eq_iff, ◌==◌,
  string_eq, iff_trans, iff_×, if◌then◌else◌,
}
use schema_strimzi_operator.World.{World, IsDocumented, FieldError}
use schema_strimzi_operator.Webhook.SchemaWebhook.{aggregate}

-- No errors are exactly what the webhook accepts.
pub aggregate-eq-nil_iff :
    (w : World) → IsDocumented w → (es : List FieldError) → (aggregate w es ≡ none) ↔ (es ≡ [])
unfolding aggregate
aggregate-eq-nil_iff w d [] = (λ h. refl, λ h. refl)
aggregate-eq-nil_iff w d (e ∷ es) = (λ h. absurd (d.aggregate-cons e es h), λ h. ground arith)

module _ {ℓ} {A : Type ℓ} where
  pub append-eq-nil_iff : (xs ys : List A) → (xs ++ ys ≡ []) ↔ ((xs ≡ []) × (ys ≡ []))
  append-eq-nil_iff [] ys = (λ h. (refl, h), λ h. h.1)
  append-eq-nil_iff (x ∷ xs) ys = (λ h. ground arith, λ h. ground arith)

-- An error that is there under a test.
pub flagged-eq-nil_iff :
    (b : Bool) (e : FieldError) → ((if b then e ∷ [] else []) ≡ []) ↔ (b ≡ false)
flagged-eq-nil_iff true e = (λ h. ground arith, λ h. ground arith)
flagged-eq-nil_iff false e = (λ h. refl, λ h. refl)

-- The error for a text that must not be empty.
pub required-eq-nil_iff :
    (s : String) (e : FieldError) → ((if s == "" then e ∷ [] else []) ≡ []) ↔ (s ≢ "")
required-eq-nil_iff s e = (λ h. ground (arith, eq_iff s ""), λ h. ground (arith, eq_iff s ""))

pub flagged-append_iff {κ} :
    {P : Type κ} (b : Bool) (e : FieldError) (es : List FieldError)
    → (es ≡ []) ↔ P
    → ((if b then e ∷ [] else []) ++ es ≡ []) ↔ ((b ≡ false) × P)
flagged-append_iff b e es h = iff_trans (append-eq-nil_iff _ es) (iff_× (flagged-eq-nil_iff b e) h)

pub required-append_iff {κ} :
    {P : Type κ} (s : String) (e : FieldError) (es : List FieldError)
    → (es ≡ []) ↔ P
    → ((if s == "" then e ∷ [] else []) ++ es ≡ []) ↔ ((s ≢ "") × P)
required-append_iff s e es h =
    iff_trans (append-eq-nil_iff _ es) (iff_× (required-eq-nil_iff s e) h)
