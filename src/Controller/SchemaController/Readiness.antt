-- ===== src/Controller/SchemaController/Readiness.antt =====
-- When the status of a schema says that it is registered.
use schema_strimzi_operator.Prelude.{
  ℕ, ℤ, String, Option, some, [], ◌∷◌, ◌≡◌, ◌≢◌, ◌⊎◌, inl, inr, refl, arith, eq_iff,
}
use schema_strimzi_operator.Error.{Error, Result, text, ok, err, Result-cases}
use schema_strimzi_operator.Api.Meta.{
  ObjectKey, Condition, condition_true, condition_false, find_condition,
}
use schema_strimzi_operator.Api.SchemaTypes.{Schema}
use schema_strimzi_operator.Client.Types.{
  SchemaRegistryClient, SchemaResponse, RegisterSchemaRequest, registration,
}
use schema_strimzi_operator.Client.Requests.{versions_url, latest_url}
use schema_strimzi_operator.Client.Calls.{register_schema, get_latest_version_for_subject}
use schema_strimzi_operator.World.{
  World, IsDocumented, Event, Trace, got_schema, updated_schema_status, sent, read_clock,
}
use schema_strimzi_operator.Exec.{check, check_nil, pure, give, perform, ◌>>=◌, ◌>>◌}
use schema_strimzi_operator.Controller.Effects.{
  Outcome, minute, done, stop, key_of, get_schema, update_schema, requeue_with,
}
use schema_strimzi_operator.Controller.Keeps.{Keeps, Holds, keeps_rules}
use schema_strimzi_operator.Controller.Quiet.{
  KeepsSent, bare_request-method, json_request-method, register_schema-Keeps,
}
use schema_strimzi_operator.Controller.SchemaController.{
  failed_condition, registered_condition, registered_status, register_request, release, finalize,
  refetch, ensure_finalizer, write_failed, write_registered, record_registered,
  set_condition_failed, apply_compatibility, register, reconcile,
}
use schema_strimzi_operator.Controller.SchemaController.Parts.{
  IsQuiet, build_client-Keeps, delete_from_registry-Keeps, apply_compatibility-Keeps,
}

module _ (w : World) where
  -- The last POST of the history was answered with 200 and this id.
  abbrev pub IsRegistered : ℤ → Trace → Type 0
  IsRegistered id [] = ⊥
  IsRegistered id (sent client req (ok resp) ∷ t) =
      ((req.method ≡ "POST") × (resp.status_code ≡ 200) × (w.decode_id resp.body ≡ ok id))
      ⊎ ((req.method ≢ "POST") × IsRegistered id t)
  IsRegistered id (sent client req (err e) ∷ t) = (req.method ≢ "POST") × IsRegistered id t
  IsRegistered id (_ ∷ t) = IsRegistered id t

  -- A status is written with a condition Ready of the present generation, which is False, or is True
  -- beside the id that the last POST was answered with.
  abbrev pub ReadyRule : Event → Trace → Type 0
  ReadyRule (updated_schema_status s answer) t =
      (c : Condition) × (find_condition "Ready" s.status.conditions ≡ some c)
      × (c.observed_generation ≡ s.metadata.generation)
      × ((c.status ≡ condition_false)
          ⊎ ((c.status ≡ condition_true)
              × ((id : ℤ) × (s.status.schema_id ≡ some id) × IsRegistered id t)))
  ReadyRule _ t = Unit

  quiet : IsQuiet (Holds ReadyRule)
  quiet = record { registry = λ key r t h. (tt, h); secret = λ key r t h. (tt, h) }

  on_sent : KeepsSent (λ _. Unit {0}) (Holds ReadyRule)
  on_sent = record { at = λ client req r t _ h. (tt, h) }

  get-Keeps : (key : ObjectKey) → Keeps (Holds ReadyRule) (get_schema w key)
  unfolding get_schema
  get-Keeps key = record { at = λ t h. (tt, h) }

  update-Keeps : (s : Schema) → Keeps (Holds ReadyRule) (update_schema w s)
  unfolding update_schema
  update-Keeps s = record { at = λ t h. (tt, h) }

  finalize-Keeps : (s : Schema) → Keeps (Holds ReadyRule) (finalize w s)
  unfolding finalize release
  finalize-Keeps s = search (keeps_rules, delete_from_registry-Keeps w quiet on_sent s tt) depth 20

  ensure_finalizer-Keeps :
      (key : ObjectKey) (s : Schema) → Keeps (Holds ReadyRule) (ensure_finalizer w key s)
  unfolding ensure_finalizer refetch
  ensure_finalizer-Keeps key s = search (keeps_rules, update-Keeps, get-Keeps) depth 16

  register_schema-IsRegistered :
      (c : SchemaRegistryClient) (subject : String) (request : RegisterSchemaRequest)
      (result : SchemaResponse) (t : Trace)
      → (register_schema w c subject request t).0 ≡ ok result
      → IsRegistered result.id (register_schema w c subject request t).1
  unfolding register_schema get_latest_version_for_subject
  register_schema-IsRegistered c subject request result t h = ground (
    arith,
    eq_iff "GET" "POST",
    bare_request-method w c "GET" (latest_url c subject),
    json_request-method w c "POST" (versions_url c subject) (registration request),
  )

  -- A history that keeps the rule and ends in a registration with this id.
  abbrev After : ℤ → Trace → Type 0
  After id t = Holds ReadyRule t × IsRegistered id t

  on_other : (id : ℤ) → KeepsSent (λ method. method ≢ "POST") (After id)
  on_other id = record { at = λ client req r t other (h, done). ground arith }

  module _ (d : IsDocumented w) where
    set_condition_failed-Keeps :
        (stale : Schema) (reason message : String)
        → Keeps (Holds ReadyRule) (set_condition_failed w stale reason message)
    unfolding set_condition_failed write_failed
    set_condition_failed-Keeps stale reason message = record {
      at = λ t h. elim (Result-cases (w.get_schema t (key_of stale.metadata))) [
        | inl (s, found) ↦
            let before = got_schema (key_of stale.metadata) (ok s) ∷ t in
            let (c, there, status, same_reason, same_message, generation) =
              d.find-set before s.status.conditions (failed_condition w s reason message) in
            rw found ((c, there, generation, inl status), (tt, h))
        | inr (e, failed) ↦ rw failed (tt, h)
      ];
    }

    requeue_failed-Keeps :
        (delay : ℕ) (stale : Schema) (reason message : String)
        → Keeps (Holds ReadyRule) (requeue_with delay (set_condition_failed w stale reason message))
    unfolding requeue_with
    requeue_failed-Keeps delay stale reason message = record {
      at = λ t h. (set_condition_failed-Keeps stale reason message).at t h;
    }

    check_nil-Keeps :
        (refused : Option Error)
        → Keeps
            (Holds ReadyRule)
            (check_nil refused (λ e. pure (stop (some e))) >> give {A = Outcome} done)
    check_nil-Keeps refused = search keeps_rules depth 8

    record_registered-ReadyRule :
        (key : ObjectKey) (resp : SchemaResponse) (t : Trace)
        → After resp.id t
        → Holds ReadyRule (record_registered w key resp t).1
    unfolding record_registered write_registered
    record_registered-ReadyRule key resp t (h, registered) =
        elim (Result-cases (w.get_schema t key)) [
          | inl (s, found) ↦
              let read = got_schema key (ok s) ∷ t in
              let time = w.now read in
              let before = read_clock time ∷ read in
              let condition = registered_condition w s resp in
              let (c, there, status, same_reason, same_message, generation) =
                d.find-set before s.status.conditions condition in
              let cs = w.set_status_condition before s.status.conditions condition in
              let wrote = record s { status = registered_status w s resp time cs } in
              let answer = w.update_schema_status before wrote in
              rw found (
                (check_nil-Keeps answer).at (updated_schema_status wrote answer ∷ before) (
                  (c, there, generation, inr (status, (resp.id, refl, registered))),
                  (tt, (tt, h)),
                ))
          | inr (e, failed) ↦ rw failed (tt, h)
        ]

    -- What follows a successful registration.
    recorded-ReadyRule :
        (key : ObjectKey) (c : SchemaRegistryClient) (s : Schema) (resp : SchemaResponse)
        (t : Trace)
        → After resp.id t
        → Holds ReadyRule
            ((perform (apply_compatibility w c s) >> record_registered w key resp) t).1
    unfolding ◌>>◌ record_registered
    recorded-ReadyRule key c s resp t h =
        record_registered-ReadyRule key resp (apply_compatibility w c s t).1
          ((apply_compatibility-Keeps w (on_other resp.id) c s (λ e. cc e)).at t h)

    answered-ReadyRule :
        (key : ObjectKey) (c : SchemaRegistryClient) (s : Schema) (r : Result SchemaResponse)
        (t : Trace)
        → Holds ReadyRule t
        → ((resp : SchemaResponse) → r ≡ ok resp → IsRegistered resp.id t)
        → Holds ReadyRule
            ((check r (λ e.
                  requeue_with minute (set_condition_failed w s "RegistrationFailed" (text e)))
                >>= λ resp. perform (apply_compatibility w c s) >> record_registered w key resp)
              t).1
    unfolding ◌>>=◌ check
    answered-ReadyRule key c s (ok resp) t h registered =
        recorded-ReadyRule key c s resp t (h, registered resp refl)
    answered-ReadyRule key c s (err e) t h registered =
        (requeue_failed-Keeps minute s "RegistrationFailed" (text e)).at t h

    -- The registration and what follows it.
    registration-Keeps :
        (key : ObjectKey) (c : SchemaRegistryClient) (s : Schema)
        → Keeps (Holds ReadyRule) (
            perform (register_schema w c s.spec.subject (register_request s)) >>= λ r.
            check r
              (λ e. requeue_with minute (set_condition_failed w s "RegistrationFailed" (text e)))
            >>= λ resp. perform (apply_compatibility w c s) >> record_registered w key resp)
    unfolding ◌>>=◌ check perform register_schema
    registration-Keeps key c s =
        let request = register_request s in
        record {
          at = λ t h.
              answered-ReadyRule key c s (register_schema w c s.spec.subject request t).0
                (register_schema w c s.spec.subject request t).1
                ((register_schema-Keeps w on_sent c s.spec.subject request tt tt).at t h)
                (λ resp e. register_schema-IsRegistered c s.spec.subject request resp t e);
        }

    register-Keeps : (key : ObjectKey) (s : Schema) → Keeps (Holds ReadyRule) (register w key s)
    unfolding register
    register-Keeps key s =
        search (keeps_rules, build_client-Keeps w quiet, requeue_failed-Keeps, registration-Keeps)
          depth 20

    reconcile-Keeps : (key : ObjectKey) → Keeps (Holds ReadyRule) (reconcile w key)
    unfolding reconcile
    reconcile-Keeps key =
        search (keeps_rules, get-Keeps, finalize-Keeps, ensure_finalizer-Keeps, register-Keeps)
          depth 20

    -- In a history that obeys the rule for readiness, a reconciliation obeys it too: each status of a
    -- schema that it writes has a condition Ready for the present generation, which is False, or is
    -- True beside an id, where the last POST of the history was answered with 200 and this id.
    pub reconcile-ReadyRule :
        (key : ObjectKey) (t : Trace) → Holds ReadyRule t → Holds ReadyRule (reconcile w key t).1
    reconcile-ReadyRule key = (reconcile-Keeps key).at
