-- ===== src/Controller/SchemaController/Rounds.antt =====
-- What a reconciliation makes of a schema that is not being deleted.
use schema_strimzi_operator.Prelude.{ℤ, String, true, some, none, ◌∷◌, ◌≡◌, refl, sym, inl, inr}
use schema_strimzi_operator.Error.{Error, text, Result, ok, err, Result-cases}
use schema_strimzi_operator.Api.Meta.{ObjectKey, Condition, find_condition, is_zero}
use schema_strimzi_operator.Api.SchemaTypes.{Schema}
use schema_strimzi_operator.Client.Types.{
  SchemaRegistryClient, SchemaResponse, HttpResponse, registration,
}
use schema_strimzi_operator.Client.Requests.{versions_url}
use schema_strimzi_operator.Client.Calls.{register_schema}
use schema_strimzi_operator.Client.Answers.{
  registration_request, registration_answer, IsVersion, version_after,
  register_schema-version_after, register_schema-eq-ok_iff,
}
use schema_strimzi_operator.World.{
  World, IsDocumented, Trace, got_schema, updated_schema_status, read_clock, sent,
}
use schema_strimzi_operator.Controller.Effects.{Outcome, minute, done, key_of}
use schema_strimzi_operator.Controller.SchemaController.{
  schema_finalizer, with_conditions, failed_condition, registered_condition, registered_status,
  register_request, ensure_finalizer, apply_compatibility, write_failed, set_condition_failed,
  write_registered, record_registered, register, reconcile,
}
use schema_strimzi_operator.Controller.SchemaController.Release.{attempt}
use schema_strimzi_operator.Controller.SchemaController.Parts.{registration_of}

-- The condition Ready of the status, for the present generation.
abbrev pub HasReady : Schema → String → String → Type 0
HasReady x status reason =
    (c : Condition) × (find_condition "Ready" x.status.conditions ≡ some c)
    × (c.status ≡ status)
    × (c.reason ≡ reason)
    × (c.observed_generation ≡ x.metadata.generation)

module _ (w : World) (key : ObjectKey) (s : Schema) (t : Trace) where
  -- With the client, POST on the versions of the subject, with the text, the type and the references
  -- of the schema, is answered with 200 and this id.
  abbrev pub IsTaken : SchemaRegistryClient → ℤ → Type 0
  IsTaken c id =
      let request = registration_of s in
      (w.marshal_error (registration request) ≡ none)
      × (w.new_request_error "POST" (versions_url c s.spec.subject) ≡ none)
      × ((resp : HttpResponse) × (registration_answer w c s.spec.subject request
              (attempt w key s t).1
            ≡ ok resp)
          × (resp.status_code ≡ 200)
          × (w.decode_id resp.body ≡ ok id))

  -- The history after the registration was sent.
  abbrev pub after_post : SchemaRegistryClient → Trace
  after_post c =
      let request = registration_of s in
      let before = (attempt w key s t).1 in
      sent c.http_client (registration_request w c s.spec.subject request)
        (registration_answer w c s.spec.subject request before)
      ∷ before

  -- The status that is written and the outcome, for each of the things that may happen.
  pub data Verdict (out : Outcome) (x : Schema) : Type 0 where
    registered :
        (c : SchemaRegistryClient) (id version : ℤ)
        → (attempt w key s t).0 ≡ ok c
        → IsTaken c id
        → IsVersion w c s.spec.subject (after_post c) version
        → out ≡ record { requeue_after = 0; error = none }
        → x.status.schema_id ≡ some id
        → x.status.version ≡ some version
        → x.status.observed_generation ≡ s.metadata.generation
        → HasReady x "True" "Registered"
        → Verdict out x
    refused :
        (c : SchemaRegistryClient)
        → (attempt w key s t).0 ≡ ok c
        → ((id : ℤ) → ¬ IsTaken c id)
        → out ≡ record { requeue_after = minute; error = none }
        → x.status ≡ record s.status { conditions = x.status.conditions }
        → HasReady x "False" "RegistrationFailed"
        → Verdict out x
    unbuilt :
        (e : Error)
        → (attempt w key s t).0 ≡ err e
        → out ≡ record { requeue_after = minute; error = none }
        → x.status ≡ record s.status { conditions = x.status.conditions }
        → HasReady x "False" "ClientBuildFailed"
        → Verdict out x

  module _ (there : (t : Trace) → w.get_schema t key ≡ ok s)
      (accepted : (t : Trace) (x : Schema) → w.update_schema_status t x ≡ none)
      (live : is_zero s.metadata.deletion_timestamp ≡ true)
      (held : w.contains_finalizer s.metadata.finalizers schema_finalizer ≡ true)
      (same : key ≡ key_of s.metadata) where
    -- What is written where the registration fails.
    abbrev failure : String → Error → Trace → Schema
    failure reason e read =
        with_conditions s
          (w.set_status_condition read s.status.conditions (failed_condition w s reason (text e)))

    failure-HasReady :
        IsDocumented w
        → (reason : String) (e : Error) (read : Trace)
        → HasReady (failure reason e read) "False" reason
    failure-HasReady d reason e read =
        let (c, found, status, because, message, generation) =
          d.find-set read s.status.conditions (failed_condition w s reason (text e)) in
        (c, found, status, because, generation)

    unbuilt-reconcile :
        (e : Error)
        → (attempt w key s t).0 ≡ err e
        → let read = got_schema key (ok s) ∷ (attempt w key s t).1 in
          reconcile w key t ≡ (
            record { requeue_after = minute; error = none },
            updated_schema_status (failure "ClientBuildFailed" e read) none ∷ read,
          )
    unfolding reconcile ensure_finalizer register set_condition_failed write_failed
    unbuilt-reconcile e failed = rw (there, live, held, failed, sym same, there, accepted) refl

    module _ (c : SchemaRegistryClient) (built : (attempt w key s t).0 ≡ ok c) where
      abbrev posted : Result SchemaResponse × Trace
      posted = register_schema w c s.spec.subject (register_request s) (attempt w key s t).1

      refused-reconcile :
          (e : Error)
          → posted.0 ≡ err e
          → let read = got_schema key (ok s) ∷ posted.1 in
            reconcile w key t ≡ (
              record { requeue_after = minute; error = none },
              updated_schema_status (failure "RegistrationFailed" e read) none ∷ read,
            )
      unfolding reconcile ensure_finalizer register set_condition_failed write_failed
      refused-reconcile e failed =
          rw (there, live, held, built, failed, sym same, there, accepted) refl

      registered-reconcile :
          (resp : SchemaResponse)
          → posted.0 ≡ ok resp
          → let read = got_schema key (ok s) ∷ (apply_compatibility w c s posted.1).1 in
            let before = read_clock (w.now read) ∷ read in
            let cs =
              w.set_status_condition before s.status.conditions (registered_condition w s resp) in
            let wrote = record s { status = registered_status w s resp (w.now read) cs } in
            reconcile w key t ≡ (done, updated_schema_status wrote none ∷ before)
      unfolding reconcile ensure_finalizer register record_registered write_registered
      registered-reconcile resp succeeded =
          rw (there, live, held, built, succeeded, there, accepted) refl

      refused-IsTaken : (e : Error) → posted.0 ≡ err e → (id : ℤ) → ¬ IsTaken c id
      unfolding register_request
      refused-IsTaken e failed id (encoded, asked, answered) =
          let version = version_after w c s.spec.subject (after_post c) in
          let taken =
            (register_schema-version_after w c s.spec.subject (register_request s)
                (record { id = id; version = version; schema = "" }) (attempt w key s t).1).1
              (encoded, asked, answered, refl, refl) in
          cc (taken, failed)

    -- Let a schema with the finalizer that is not being deleted be found whenever its key is read,
    -- and each update of its status be accepted. Then a reconciliation of its key ends with an
    -- accepted update of the status and nothing else changed, whose condition Ready is for the
    -- present generation. If a client is built, and POST with the text, the type and the references
    -- of the schema can be encoded and built and is answered with 200 and a body that holds an id,
    -- then there is no error and no further round, and the status has this id, the version with
    -- which GET on the latest version is answered after that or else 0, the present generation, and
    -- Ready True. If no client can be built, or if the POST does not come to that, then there is no
    -- error, the next round is in one minute, and the status is as before but for its conditions,
    -- with Ready False for the reason ClientBuildFailed or RegistrationFailed.
    pub reconcile-Verdict :
        IsDocumented w
        → (out : Outcome) × (x : Schema) × (rest : Trace) × (reconcile w key t
            ≡ (out, updated_schema_status x none ∷ rest))
          × (x ≡ record s { status = x.status })
          × Verdict out x
    unfolding register_request
    reconcile-Verdict d = elim (Result-cases (attempt w key s t).0) [
      | inr (e, failed) ↦
          let read = got_schema key (ok s) ∷ (attempt w key s t).1 in
          (
            record { requeue_after = minute; error = none },
            failure "ClientBuildFailed" e read,
            read,
            unbuilt-reconcile e failed,
            refl,
            unbuilt e failed refl refl (failure-HasReady d "ClientBuildFailed" e read),
          )
      | inl (c, built) ↦ elim (Result-cases (posted c built).0) [
        | inr (e, failed) ↦
            let read = got_schema key (ok s) ∷ (posted c built).1 in
            (
              record { requeue_after = minute; error = none },
              failure "RegistrationFailed" e read,
              read,
              refused-reconcile c built e failed,
              refl,
              refused c built (refused-IsTaken c built e failed) refl refl
                  (failure-HasReady d "RegistrationFailed" e read),
            )
        | inl (resp, succeeded) ↦
            let read = got_schema key (ok s) ∷ (apply_compatibility w c s (posted c built).1).1 in
            let before = read_clock (w.now read) ∷ read in
            let cs =
              w.set_status_condition before s.status.conditions (registered_condition w s resp) in
            let (ready, found, status, reason, message, generation) =
              d.find-set before s.status.conditions (registered_condition w s resp) in
            let (encoded, asked, answered, version, text) =
              (register_schema-eq-ok_iff w c s.spec.subject (register_request s) resp
                  (attempt w key s t).1).0
                succeeded in
            (
              done,
              record s { status = registered_status w s resp (w.now read) cs },
              before,
              registered-reconcile c built resp succeeded,
              refl,
              registered c resp.id resp.version built (encoded, asked, answered) version refl refl
                  refl refl (ready, found, status, reason, generation),
            )
      ]
    ]
