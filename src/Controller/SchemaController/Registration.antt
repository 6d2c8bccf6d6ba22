-- ===== src/Controller/SchemaController/Registration.antt =====
-- Under which protection a schema is registered.
use schema_strimzi_operator.Prelude.{
  ℕ, String, ◌==◌, nat_eq, true, none, ◌∷◌, ◌≡◌, ◌≢◌, ◌⊎◌, refl, inl, inr, arith, Bool-cases,
  Option-cases, not, if◌then◌else◌,
}
use schema_strimzi_operator.Error.{Result, ok, err, wrap, text, Result-cases}
use schema_strimzi_operator.Api.Meta.{ObjectKey, is_zero}
use schema_strimzi_operator.Api.SchemaTypes.{Schema}
use schema_strimzi_operator.World.{
  World, IsDocumented, Event, Trace, got_schema, got_registry, got_secret, updated_schema, sent,
}
use schema_strimzi_operator.Client.Types.{
  SchemaRegistryClient, HttpClient, HttpRequest, HttpResponse, SchemaResponse, registration,
}
use schema_strimzi_operator.Client.Requests.{json_request, versions_url}
use schema_strimzi_operator.Client.Calls.{
  send, failed_with, registered, get_latest_version_for_subject, register_schema,
}
use schema_strimzi_operator.Exec.{
  Flow, returned, next, give, perform, check, pure, proceed, ◌>>◌, ◌>>=◌,
}
use schema_strimzi_operator.Controller.Effects.{Outcome, minute, requeue_with}
use schema_strimzi_operator.Controller.Keeps.{Keeps, Holds, keeps_rules}
use schema_strimzi_operator.Controller.Quiet.{KeepsSent, latest-Keeps}
use schema_strimzi_operator.Controller.SchemaController.{
  schema_finalizer, with_finalizers, register_request, build_client, release, finalize, refetch,
  ensure_finalizer, apply_compatibility, set_condition_failed, record_registered, register,
  reconcile,
}
use schema_strimzi_operator.Controller.SchemaController.Parts.{
  registration_of, IsQuiet, build_client-Keeps, delete_from_registry-Keeps,
  apply_compatibility-Keeps,
}
use schema_strimzi_operator.Controller.SchemaController.Invariants.{
  Tolerates, set_condition_failed-Keeps, record_registered-Keeps,
}

module _ (w : World) where
  abbrev pub IsProtected : Schema → Type 0
  IsProtected s = w.contains_finalizer s.metadata.finalizers schema_finalizer ≡ true

  -- What was read with the key has just been updated, so that it has the finalizer.
  abbrev pub JustAdded : ObjectKey → Trace → Type 0
  JustAdded key (updated_schema x none ∷ got_schema k (ok r) ∷ t) =
      (k ≡ key) × (x ≡ with_finalizers r x.metadata.finalizers) × IsProtected x
  JustAdded key _ = ⊥

  -- But for reads of registries and secrets, the last event is a read of s with the key. Then s has
  -- the finalizer, or the finalizer has just been added.
  abbrev pub IsCovered : ObjectKey → Schema → Trace → Type 0
  IsCovered key s (got_schema k (ok r) ∷ t) =
      (k ≡ key) × (r ≡ s) × (IsProtected s ⊎ JustAdded key t)
  IsCovered key s (got_registry k r ∷ t) = IsCovered key s t
  IsCovered key s (got_secret k r ∷ t) = IsCovered key s t
  IsCovered key s _ = ⊥

  -- A POST registers what was read: its text, under its subject, with its references.
  abbrev pub Registers : Schema → HttpClient → HttpRequest → Type 0
  Registers s client req =
      (c : SchemaRegistryClient) × (client ≡ c.http_client)
      × (req
          ≡ json_request w c "POST" (versions_url c s.spec.subject)
              (registration (registration_of s)))

  abbrev pub RegisterRule : Event → Trace → Type 0
  RegisterRule (sent client req answer) t =
      req.method ≡ "POST"
      → (key : ObjectKey) × (s : Schema) × Registers s client req × IsCovered key s t
  RegisterRule _ t = Unit

  -- The rule, together with what is known before the registration.
  abbrev Guarded : ObjectKey → Schema → Trace → Type 0
  Guarded key s t = Holds RegisterRule t × IsCovered key s t

  lookups : (key : ObjectKey) (s : Schema) → IsQuiet (Guarded key s)
  lookups key s = record {
    registry = λ k r t (h, p). ((tt, h), p);
    secret = λ k r t (h, p). ((tt, h), p);
  }

  tolerant : Tolerates w (Holds RegisterRule)
  tolerant = record {
    quiet = record { registry = λ key r t h. (tt, h); secret = λ key r t h. (tt, h) };
    get = λ key t h. (tt, h);
    clock = λ time t h. (tt, h);
    status = λ s t h. (tt, h);
  }

  -- Requests with other methods are always allowed.
  on_other : KeepsSent (λ method. method ≢ "POST") (Holds RegisterRule)
  on_other = record { at = λ client req r t other h. ((λ e. absurd (other e)), h) }

  finalize-RegisterRule :
      (s : Schema) (t : Trace) → Holds RegisterRule t → Holds RegisterRule (finalize w s t).1
  unfolding finalize release
  finalize-RegisterRule s t h =
      let kept =
        (delete_from_registry-Keeps w
            (record { registry = λ key r t h. (tt, h); secret = λ key r t h. (tt, h) }) on_other s
            (λ e. cc e)).at
          t h in
      ground (arith, kept)

  -- After the request of a registration.
  answered-Keeps :
      (c : SchemaRegistryClient) (subject : String) (r : Result HttpResponse)
      → Keeps (Holds RegisterRule) (
          check r (λ e. pure (err (wrap "failed to register schema" e))) >>= λ resp.
          if not (resp.status_code == 200)
          then give {A = Result SchemaResponse}
              (err (failed_with w c "schema registration failed with status " resp))
          else (check
                (w.decode_id resp.body)
                (λ e. pure (err (wrap "failed to decode register response" e)))
              >>= λ id. perform (get_latest_version_for_subject w c subject) >>= λ version.
                  give {R = Result SchemaResponse} (ok (registered w c id version))))
  answered-Keeps c subject r =
      let gets = λ (subject : String). latest-Keeps w on_other c subject (λ e. cc e) in
      search (keeps_rules, gets) depth 20

  register_schema-RegisterRule :
      (c : SchemaRegistryClient) (key : ObjectKey) (s : Schema) (t : Trace)
      → Guarded key s t
      → Holds RegisterRule (register_schema w c s.spec.subject (register_request s) t).1
  unfolding register_schema send register_request
  register_schema-RegisterRule c key s t (h, covered) =
      let body = registration (register_request s) in
      let url = versions_url c s.spec.subject in
      elim (Option-cases (w.marshal_error body)) [
        | inl encoded ↦ elim (Option-cases (w.new_request_error "POST" url)) [
          | inl built ↦
              let r = w.do_request t c.http_client (json_request w c "POST" url body) in
              rw (encoded, built)
                ((answered-Keeps c s.spec.subject r).at _
                  ((λ post. (key, s, (c, refl, refl), covered)), h))
          | inr (e, unbuilt) ↦ rw (encoded, unbuilt) h
        ]
        | inr (e, unencoded) ↦ rw unencoded h
      ]

  requeue_failed-Keeps :
      (delay : ℕ) (s : Schema) (reason message : String)
      → Keeps (Holds RegisterRule) (requeue_with delay (set_condition_failed w s reason message))
  unfolding requeue_with
  requeue_failed-Keeps delay s reason message = record {
    at = λ t h. (set_condition_failed-Keeps w tolerant s reason message).at t h;
  }

  -- After the registration.
  recorded-Keeps :
      (c : SchemaRegistryClient) (key : ObjectKey) (s : Schema) (r : Result SchemaResponse)
      → Keeps (Holds RegisterRule) (
          check r
            (λ e. requeue_with minute (set_condition_failed w s "RegistrationFailed" (text e)))
          >>= λ resp. perform (apply_compatibility w c s) >> record_registered w key resp)
  recorded-Keeps c key s r =
      let puts = apply_compatibility-Keeps w on_other c s (λ e. cc e) in
      search (keeps_rules, requeue_failed-Keeps, puts, record_registered-Keeps w tolerant) depth 20

  -- From the client on.
  register-RegisterRule :
      (key : ObjectKey) (s : Schema) (t : Trace)
      → Guarded key s t
      → Holds RegisterRule (register w key s t).1
  unfolding register
  register-RegisterRule key s t h =
      let before = (build_client-Keeps w (lookups key s) s).at t h in
      elim (Result-cases (build_client w s t).0) [
        | inl (c, built) ↦ rw built (
            (recorded-Keeps c key s _).at _
              (register_schema-RegisterRule c key s (build_client w s t).1 before))
        | inr (e, failed) ↦
            rw failed ((requeue_failed-Keeps minute s "ClientBuildFailed" (text e)).at _ before.0)
      ]

  -- What is known where `ensureFinalizer` returns, or goes on.
  abbrev After : ObjectKey → Flow Outcome Schema → Trace → Type 0
  After key (returned r) t = Holds RegisterRule t
  After key (next fresh) t = Guarded key fresh t

  register-After :
      (key : ObjectKey) (flow : Flow Outcome Schema) (t : Trace)
      → After key flow t
      → Holds RegisterRule (proceed flow (register w key) t).1
  register-After key (returned r) t h = h
  register-After key (next fresh) t h = register-RegisterRule key fresh t h

  module _ (d : IsDocumented w) where
    ensure_finalizer-After :
        (key : ObjectKey) (s : Schema) (t : Trace)
        → Holds RegisterRule t
        → After key
            (ensure_finalizer w key s (got_schema key (ok s) ∷ t)).0
            (ensure_finalizer w key s (got_schema key (ok s) ∷ t)).1
    unfolding ensure_finalizer refetch
    ensure_finalizer-After key s t h =
        ground (arith, d.contains-add s.metadata.finalizers schema_finalizer)

    -- What `Reconcile` does with the schema that it has fetched.
    fetched-RegisterRule :
        (key : ObjectKey) (s : Schema) (t : Trace)
        → Holds RegisterRule t
        → Holds RegisterRule
            ((if not (is_zero s.metadata.deletion_timestamp)
                then finalize w s
                else (ensure_finalizer w key s >>= register w key))
              (got_schema key (ok s) ∷ t)).1
    unfolding ◌>>=◌
    fetched-RegisterRule key s t h = elim (Bool-cases (is_zero s.metadata.deletion_timestamp)) [
      | inl live ↦ rw live (register-After key _ _ (ensure_finalizer-After key s t h))
      | inr dying ↦ rw dying (finalize-RegisterRule s _ (tt, h))
    ]

    -- In a history that obeys the rule for registrations, a reconciliation obeys it too: each POST
    -- sends the text of a schema under its subject, with its type and its references; but for reads
    -- of registries and secrets, the event before it is the read of this schema; and what was read
    -- has the finalizer, or the events before the read are a read with the same key and an accepted
    -- update that adds the finalizer to what it gave.
    pub reconcile-RegisterRule :
        (key : ObjectKey) (t : Trace)
        → Holds RegisterRule t
        → Holds RegisterRule (reconcile w key t).1
    unfolding reconcile
    reconcile-RegisterRule key t h = elim (Result-cases (w.get_schema t key)) [
      | inl (s, found) ↦ rw found (fetched-RegisterRule key s t h)
      | inr (e, failed) ↦ rw failed (tt, h)
    ]
