-- ===== src/Controller/SchemaController/Freshness.antt =====
-- What the reconciler writes, compared with what it has read.
use schema_strimzi_operator.Prelude.{
  String, Option, none, some, List, [], ◌∷◌, ◌≡◌, inl, inr, refl, Bool-cases,
}
use schema_strimzi_operator.Error.{Error, ok, err, Result-cases}
use schema_strimzi_operator.Api.Meta.{ObjectKey, is_zero}
use schema_strimzi_operator.Api.SchemaTypes.{Schema}
use schema_strimzi_operator.Client.Types.{SchemaResponse}
use schema_strimzi_operator.World.{
  World, Event, Trace, got_schema, updated_schema, updated_schema_status, read_clock,
}
use schema_strimzi_operator.Exec.{Flow, returned, next, proceed, check_nil, pure, give, ◌>>◌}
use schema_strimzi_operator.Controller.Effects.{
  Outcome, done, stop, key_of, get_schema, update_schema,
}
use schema_strimzi_operator.Controller.Keeps.{Keeps, Holds, keeps_rules}
use schema_strimzi_operator.Controller.Quiet.{KeepsSent}
use schema_strimzi_operator.Controller.SchemaController.{
  schema_finalizer, with_finalizers, delete_from_registry, write_failed, set_condition_failed,
  release, finalize, refetch, ensure_finalizer, registered_condition, registered_status,
  write_registered, record_registered, register, reconcile,
}
use schema_strimzi_operator.Controller.SchemaController.Parts.{IsQuiet, delete_from_registry-Keeps}
use schema_strimzi_operator.Controller.SchemaController.Invariants.{register_parts-Keeps}

-- The schema that was read last.
abbrev pub latest : Trace → Option Schema
latest [] = none
latest (got_schema key (ok s) ∷ t) = some s
latest (_ ∷ t) = latest t

-- The schema that was read just now: nothing but readings of the clock came after it.
abbrev pub just_read : Trace → Option Schema
just_read (got_schema key (ok s) ∷ t) = some s
just_read (read_clock time ∷ t) = just_read t
just_read _ = none

-- An update of a schema changes nothing but the finalizers of the schema that was read last, and an
-- update of the status nothing but the status of a schema that was read just now.
abbrev pub FreshRule : Event → Trace → Type 0
FreshRule (updated_schema s answer) t =
    (read : Schema) × (latest t ≡ some read) × (s ≡ with_finalizers read s.metadata.finalizers)
FreshRule (updated_schema_status s answer) t =
    (read : Schema) × (just_read t ≡ some read) × (s ≡ record read { status = s.status })
FreshRule _ t = Unit

module _ (w : World) where
  quiet : IsQuiet (Holds FreshRule)
  quiet = record { registry = λ key r t h. (tt, h); secret = λ key r t h. (tt, h) }

  on_sent : KeepsSent (λ _. Unit {0}) (Holds FreshRule)
  on_sent = record { at = λ client req r t _ h. (tt, h) }

  check_nil-Keeps :
      (refused : Option Error)
      → Keeps
          (Holds FreshRule)
          (check_nil refused (λ e. pure (stop (some e))) >> give {A = Outcome} done)
  check_nil-Keeps refused = search keeps_rules depth 8

  -- The property of a history in which `read` was read last, and its events.
  module _ (read : Schema) where
    abbrev Fresh : Trace → Type 0
    Fresh t = Holds FreshRule t × (latest t ≡ some read)

    update-Fresh : (fs : List String) → Keeps Fresh (update_schema w (with_finalizers read fs))
    unfolding update_schema
    update-Fresh fs = record { at = λ t (h, l). (((read, l, refl), h), l) }

    module _ (t : Trace) (h : Holds FreshRule t) (now : just_read t ≡ some read) where
      write_failed-FreshRule :
          (reason message : String) → Holds FreshRule (write_failed w reason message read t).1
      unfolding write_failed
      write_failed-FreshRule reason message = ((read, now, refl), h)

      write_registered-FreshRule :
          (resp : SchemaResponse) → Holds FreshRule (write_registered w resp read t).1
      unfolding write_registered
      write_registered-FreshRule resp =
          let time = w.now t in
          let before = read_clock time ∷ t in
          let cs =
            w.set_status_condition before read.status.conditions
              (registered_condition w read resp) in
          let wrote = record read { status = registered_status w read resp time cs } in
          let answer = w.update_schema_status before wrote in
          (check_nil-Keeps answer).at (updated_schema_status wrote answer ∷ before)
            ((read, now, refl), (tt, h))

    release-Fresh : Keeps Fresh (release w read)
    unfolding release
    release-Fresh = search (keeps_rules, update-Fresh) depth 16

    delete_from_registry-Fresh : Keeps Fresh (delete_from_registry w read)
    delete_from_registry-Fresh =
        delete_from_registry-Keeps w {M = λ _. Unit {0}}
          (record {
            registry = λ key r t (h, l). ((tt, h), l);
            secret = λ key r t (h, l). ((tt, h), l);
          })
          (record { at = λ client req r t _ (h, l). ((tt, h), l) }) read tt

    finalize-Fresh : Keeps Fresh (finalize w read)
    unfolding finalize
    finalize-Fresh = search (keeps_rules, delete_from_registry-Fresh, release-Fresh) depth 16

  set_condition_failed-Keeps :
      (s : Schema) (reason message : String)
      → Keeps (Holds FreshRule) (set_condition_failed w s reason message)
  unfolding set_condition_failed
  set_condition_failed-Keeps s reason message = record {
    at = λ t h. elim (Result-cases (w.get_schema t (key_of s.metadata))) [
      | inl (read, found) ↦ rw found (write_failed-FreshRule read _ (tt, h) refl reason message)
      | inr (e, failed) ↦ rw failed (tt, h)
    ];
  }

  record_registered-Keeps :
      (key : ObjectKey) (resp : SchemaResponse)
      → Keeps (Holds FreshRule) (record_registered w key resp)
  unfolding record_registered
  record_registered-Keeps key resp = record {
    at = λ t h. elim (Result-cases (w.get_schema t key)) [
      | inl (read, found) ↦ rw found (write_registered-FreshRule read _ (tt, h) refl resp)
      | inr (e, failed) ↦ rw failed (tt, h)
    ];
  }

  get-Keeps : (key : ObjectKey) → Keeps (Holds FreshRule) (get_schema w key)
  unfolding get_schema
  get-Keeps key = record { at = λ t h. (tt, h) }

  refetch-Keeps :
      (key : ObjectKey) (refused : Option Error) → Keeps (Holds FreshRule) (refetch w key refused)
  unfolding refetch
  refetch-Keeps key refused = search (keeps_rules, get-Keeps) depth 16

  ensure_finalizer-FreshRule :
      (key : ObjectKey) (s : Schema) (t : Trace)
      → latest t ≡ some s
      → Holds FreshRule t
      → Holds FreshRule (ensure_finalizer w key s t).1
  unfolding ensure_finalizer
  ensure_finalizer-FreshRule key s t read h =
      let wrote = with_finalizers s (w.add_finalizer s.metadata.finalizers schema_finalizer) in
      elim (Bool-cases (w.contains_finalizer s.metadata.finalizers schema_finalizer)) [
        | inl there ↦ rw there h
        | inr gone ↦ rw gone (
            (refetch-Keeps key (w.update_schema t wrote)).at
              (updated_schema wrote (w.update_schema t wrote) ∷ t) ((s, read, refl), h))
      ]

  -- The rest of the reconciliation, whichever way `ensureFinalizer` ended.
  proceed-FreshRule :
      (key : ObjectKey) (flow : Flow Outcome Schema) (t : Trace)
      → Holds FreshRule t
      → Holds FreshRule (proceed flow (register w key) t).1
  proceed-FreshRule key (returned r) t h = h
  proceed-FreshRule key (next fresh) t h =
      (register_parts-Keeps w quiet on_sent set_condition_failed-Keeps record_registered-Keeps tt tt
          tt key fresh).at
        t h

  fetched-FreshRule :
      (key : ObjectKey) (s : Schema) (t : Trace)
      → w.get_schema t key ≡ ok s
      → Holds FreshRule t
      → Holds FreshRule (reconcile w key t).1
  unfolding reconcile
  fetched-FreshRule key s t found h = elim (Bool-cases (is_zero s.metadata.deletion_timestamp)) [
    | inl live ↦
        rw (found, live)
          (proceed-FreshRule key _ _
            (ensure_finalizer-FreshRule key s (got_schema key (ok s) ∷ t) refl (tt, h)))
    | inr dying ↦
        rw (found, dying) ((finalize-Fresh s).at (got_schema key (ok s) ∷ t) ((tt, h), refl)).0
  ]

  failed-FreshRule :
      (key : ObjectKey) (e : Error) (t : Trace)
      → w.get_schema t key ≡ err e
      → Holds FreshRule t
      → Holds FreshRule (reconcile w key t).1
  unfolding reconcile
  failed-FreshRule key e t failed h = rw failed (tt, h)

  -- In a history that obeys the rule of freshness, a reconciliation obeys it too: each update of a
  -- schema sends the schema that was read last with other finalizers and nothing else changed, and
  -- each update of a status follows on a read of the schema, with only readings of the clock
  -- between, and sends what was read with another status and nothing else changed.
  pub reconcile-FreshRule :
      (key : ObjectKey) (t : Trace) → Holds FreshRule t → Holds FreshRule (reconcile w key t).1
  reconcile-FreshRule key t h = elim (Result-cases (w.get_schema t key)) [
    | inl (s, found) ↦ fetched-FreshRule key s t found h
    | inr (e, failed) ↦ failed-FreshRule key e t failed h
  ]
