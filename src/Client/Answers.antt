-- ===== src/Client/Answers.antt =====
-- What each call of the client takes for success.
use schema_strimzi_operator.Prelude.{
  ℕ, ℤ, pos, String, none, ◌∷◌, refl, inl, inr, ◌≡◌, ◌↔◌, ◌⊎◌, arith,
}
use schema_strimzi_operator.Error.{Result, ok, err, Result-cases}
use schema_strimzi_operator.World.{World, Trace, sent}
use schema_strimzi_operator.Client.Types.{
  SchemaRegistryClient, SchemaResponse, RegisterSchemaRequest, registration, compatibility,
  HttpRequest, HttpResponse,
}
use schema_strimzi_operator.Client.Requests.{
  subjects_url, versions_url, latest_url, subject_url, config_url, bare_request, json_request,
}
use schema_strimzi_operator.Client.Calls.{
  health_check, get_latest_version_for_subject, register_schema, delete_subject, set_compatibility,
}

-- An answer with the status code.
abbrev pub HasStatus : ℕ → Result HttpResponse → Type 0
HasStatus code r = (resp : HttpResponse) × (r ≡ ok resp) × (resp.status_code ≡ code)

module _ (w : World) (c : SchemaRegistryClient) where
  -- A health check succeeds exactly when the request can be built and the list of subjects is
  -- answered with status 200.
  pub health_check-eq-nil_iff :
      (t : Trace)
      → ((health_check w c t).0 ≡ none) ↔ (
          (w.new_request_error "GET" (subjects_url c) ≡ none)
          × HasStatus 200 (w.do_request t c.http_client (bare_request w c "GET" (subjects_url c))))
  unfolding health_check
  health_check-eq-nil_iff t = (λ h. ground arith, λ h. ground arith)

  -- The deletion of a subject succeeds exactly when the request can be built and DELETE on the
  -- subject is answered with status 404 or 200.
  pub delete_subject-eq-nil_iff :
      (subject : String) (t : Trace)
      → let answer =
          w.do_request t c.http_client (bare_request w c "DELETE" (subject_url c subject)) in
        ((delete_subject w c subject t).0 ≡ none) ↔ (
          (w.new_request_error "DELETE" (subject_url c subject) ≡ none)
          × (HasStatus 404 answer ⊎ HasStatus 200 answer))
  unfolding delete_subject
  delete_subject-eq-nil_iff subject t = (λ h. ground arith, λ h. ground arith)

  -- Setting a compatibility level succeeds exactly when the body can be encoded, the request can be
  -- built, and PUT on the subject's configuration is answered with status 200.
  pub set_compatibility-eq-nil_iff :
      (subject level : String) (t : Trace)
      → let req = json_request w c "PUT" (config_url c subject) (compatibility level) in
        ((set_compatibility w c subject level t).0 ≡ none) ↔ (
          (w.marshal_error (compatibility level) ≡ none)
          × (w.new_request_error "PUT" (config_url c subject) ≡ none)
          × HasStatus 200 (w.do_request t c.http_client req))
  unfolding set_compatibility
  set_compatibility-eq-nil_iff subject level t = (λ h. ground arith, λ h. ground arith)

  -- Three calls report no error exactly as follows. A health check: the request can be built and the
  -- list of subjects is answered with 200. A deletion: the request can be built and DELETE on the
  -- subject is answered with 404 or 200. Setting a compatibility level: the body can be encoded, the
  -- request can be built, and PUT on the subject's configuration is answered with 200.
  pub calls-eq-nil_iff :
      (subject level : String) (t : Trace)
      → let list = bare_request w c "GET" (subjects_url c) in
        let delete = bare_request w c "DELETE" (subject_url c subject) in
        let put = json_request w c "PUT" (config_url c subject) (compatibility level) in
        (((health_check w c t).0 ≡ none) ↔ (
          (w.new_request_error "GET" (subjects_url c) ≡ none)
          × HasStatus 200 (w.do_request t c.http_client list)))
        × (((delete_subject w c subject t).0 ≡ none) ↔ (
            (w.new_request_error "DELETE" (subject_url c subject) ≡ none)
            × (HasStatus 404 (w.do_request t c.http_client delete)
                ⊎ HasStatus 200 (w.do_request t c.http_client delete))))
        × (((set_compatibility w c subject level t).0 ≡ none) ↔ (
            (w.marshal_error (compatibility level) ≡ none)
            × (w.new_request_error "PUT" (config_url c subject) ≡ none)
            × HasStatus 200 (w.do_request t c.http_client put)))
  calls-eq-nil_iff subject level t = (
    health_check-eq-nil_iff t,
    delete_subject-eq-nil_iff subject t,
    set_compatibility-eq-nil_iff subject level t,
  )

  -- After the history t, GET on the latest version of the subject is answered with status 200 and a
  -- body that holds this version.
  abbrev pub GivesVersion : String → Trace → ℤ → Type 0
  GivesVersion subject t v =
      (w.new_request_error "GET" (latest_url c subject) ≡ none)
      × ((resp : HttpResponse) × (w.do_request t c.http_client
              (bare_request w c "GET" (latest_url c subject))
            ≡ ok resp)
          × (resp.status_code ≡ 200)
          × ((result : SchemaResponse) × (w.decode_response resp ≡ ok result)
              × (v ≡ result.version)))

  -- The version is the one that the registry gives, or 0 if it gives none.
  abbrev pub IsVersion : String → Trace → ℤ → Type 0
  IsVersion subject t v =
      GivesVersion subject t v ⊎ (((u : ℤ) → ¬ GivesVersion subject t u) × (v ≡ pos 0))

  get_latest_version_for_subject-eq-ok_iff :
      (subject : String) (t : Trace) (v : ℤ)
      → ((get_latest_version_for_subject w c subject t).0 ≡ ok v) ↔ GivesVersion subject t v
  unfolding get_latest_version_for_subject
  get_latest_version_for_subject-eq-ok_iff subject t v = (
    λ h.
        let url = latest_url c subject in
        let answer = w.do_request t c.http_client (bare_request w c "GET" url) in
        elim (Result-cases answer) [
          | inl (resp, answered) ↦ elim (Result-cases (w.decode_response resp)) [
            | inl (result, decoded) ↦
                (ground arith, (resp, answered, ground arith, (result, decoded, ground arith)))
            | inr (e, garbled) ↦ absurd (ground arith)
          ]
          | inr (e, failed) ↦ absurd (ground arith)
        ],
    λ h. ground arith,
  )

  abbrev or_zero : Result ℤ → ℤ
  or_zero (ok v) = v
  or_zero (err _) = pos 0

  -- The version that the code puts beside the id, after the history t.
  abbrev pub version_after : String → Trace → ℤ
  version_after subject t = or_zero (get_latest_version_for_subject w c subject t).0

  or_zero_iff :
      (subject : String) (t : Trace) (v : ℤ) (r : Result ℤ)
      → (get_latest_version_for_subject w c subject t).0 ≡ r
      → (v ≡ or_zero r) ↔ IsVersion subject t v
  or_zero_iff subject t v (ok x) found =
      let given = get_latest_version_for_subject-eq-ok_iff subject t in
      (
        λ same. inl ((given v).0 (rw same found)),
        λ h. elim h [
          | inl gives ↦ let found' = (given v).1 gives in cc (found, found')
          | inr (never, _) ↦ absurd (never x ((given x).0 found))
        ],
      )
  or_zero_iff subject t v (err e) failed =
      let given = get_latest_version_for_subject-eq-ok_iff subject t in
      (
        λ same.
            inr ((λ u gives. let found = (given u).1 gives in absurd (cc (found, failed))), same),
        λ h. elim h [
          | inl gives ↦ let found = (given v).1 gives in absurd (cc (found, failed))
          | inr (never, nothing) ↦ nothing
        ],
      )

  module _ (subject : String) (request : RegisterSchemaRequest) where
    abbrev pub registration_request : HttpRequest
    registration_request = json_request w c "POST" (versions_url c subject) (registration request)

    abbrev pub registration_answer : Trace → Result HttpResponse
    registration_answer t = w.do_request t c.http_client registration_request

    pub register_schema-version_after :
        (result : SchemaResponse) (t : Trace)
        → ((register_schema w c subject request t).0 ≡ ok result) ↔ (
            (w.marshal_error (registration request) ≡ none)
            × (w.new_request_error "POST" (versions_url c subject) ≡ none)
            × ((resp : HttpResponse) × (registration_answer t ≡ ok resp)
                × (resp.status_code ≡ 200)
                × (w.decode_id resp.body ≡ ok result.id))
            × (result.version
                ≡ version_after subject
                    (sent c.http_client registration_request (registration_answer t) ∷ t))
            × (result.schema ≡ ""))
    unfolding register_schema
    register_schema-version_after result t = (λ h. ground arith, λ h. ground arith)

    -- A registration succeeds exactly when the body can be encoded, the request can be built, and
    -- POST is answered with status 200 and a body that holds an id. The result then has this id,
    -- no schema text, and the version with which GET on the latest version of the subject is
    -- answered after that, with status 200, or 0 if this request cannot be built, is not answered
    -- with 200, or is answered with a body that holds no version.
    pub register_schema-eq-ok_iff :
        (result : SchemaResponse) (t : Trace)
        → ((register_schema w c subject request t).0 ≡ ok result) ↔ (
            (w.marshal_error (registration request) ≡ none)
            × (w.new_request_error "POST" (versions_url c subject) ≡ none)
            × ((resp : HttpResponse) × (registration_answer t ≡ ok resp)
                × (resp.status_code ≡ 200)
                × (w.decode_id resp.body ≡ ok result.id))
            × IsVersion subject
                (sent c.http_client registration_request (registration_answer t) ∷ t)
                result.version
            × (result.schema ≡ ""))
    register_schema-eq-ok_iff result t =
        let after = sent c.http_client registration_request (registration_answer t) ∷ t in
        let (to, from) = register_schema-version_after result t in
        let (there, back) = or_zero_iff subject after result.version _ refl in
        (
          λ h. let (m, b, answered, version, text) = to h in (m, b, answered, there version, text),
          λ (m, b, answered, version, text). from (m, b, answered, back version, text),
        )
