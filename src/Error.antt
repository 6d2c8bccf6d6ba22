-- ===== src/Error.antt =====
-- Go's `error` values, and results that may be one; `nil` is the `none` of an `Option Error`.
use schema_strimzi_operator.Prelude.{String, ◌<>◌, ◌≡◌, refl, ◌⊎◌, inl, inr}

-- `wrap prefix e` is `fmt.Errorf(prefix + ": %w", e)`. An error of a library comes as `message`,
-- or as `not_found` if it is an API error with the reason NotFound.
pub data Error : Type 0 where
  not_found : String → Error
  message : String → Error
  wrap : String → Error → Error

-- `err.Error()`
unfoldable pub text : Error → String
text (not_found s) = s
text (message s) = s
text (wrap prefix e) = prefix <> ": " <> text e

pub data Result {ℓ} (A : Type ℓ) : Type ℓ where
  ok : A → Result A
  err : Error → Result A

-- `apierrors.IsNotFound`, which looks into what is wrapped.
abbrev pub IsNotFound : Error → Type 0
IsNotFound (not_found s) = Unit
IsNotFound (message s) = ⊥
IsNotFound (wrap prefix e) = IsNotFound e

pub IsNotFound-or_not : (e : Error) → IsNotFound e ⊎ (¬ IsNotFound e)
IsNotFound-or_not (not_found s) = inl tt
IsNotFound-or_not (message s) = inr (λ h. h)
IsNotFound-or_not (wrap prefix e) = IsNotFound-or_not e

-- To split on a computed result and keep the equation.
pub Result-cases {κ} :
    {X : Type κ} (x : Result X) → ((value : X) × (x ≡ ok value)) ⊎ ((e : Error) × (x ≡ err e))
Result-cases (err e) = inr (e, refl)
Result-cases (ok value) = inl (value, refl)

abbrev pub IsOk {ℓ} : {A : Type ℓ} → Result A → Type 0
IsOk (ok a) = Unit
IsOk (err e) = ⊥

pub IsOk-ok {ℓ} : {A : Type ℓ} (r : Result A) → IsOk r → (a : A) × (r ≡ ok a)
IsOk-ok (ok a) h = (a, refl)
IsOk-ok (err e) h = absurd h
