-- ===== src/Controller/SchemaController/Settled.antt =====
-- What a reconciliation that asks for no further round and reports no error has come to.
use schema_strimzi_operator.Prelude.{
  false, Option, none, some, ◌∷◌, ◌≡◌, ◌≢◌, inl, inr, arith, Bool-cases, Option-cases,
}
use schema_strimzi_operator.Error.{Error, IsNotFound, IsNotFound-or_not, ok, err, Result-cases}
use schema_strimzi_operator.Api.Meta.{ObjectKey, Condition, condition_true, find_condition, is_zero}
use schema_strimzi_operator.Api.SchemaTypes.{Schema}
use schema_strimzi_operator.Client.Types.{SchemaResponse}
use schema_strimzi_operator.World.{
  World, IsDocumented, Trace, got_schema, updated_schema, updated_schema_status, read_clock,
}
use schema_strimzi_operator.Exec.{Run, finish}
use schema_strimzi_operator.Controller.Effects.{Outcome, minute, done, stop, requeue_with}
use schema_strimzi_operator.Controller.Ends.{Allows, Leaves, Ends, Ends-proceed, ends_rules}
use schema_strimzi_operator.Controller.SchemaController.{
  schema_finalizer, with_finalizers, registered_condition, registered_status, delete_from_registry,
  release, finalize, refetch, ensure_finalizer, write_registered, record_registered, register,
  reconcile,
}

module _ (w : World) where
  -- The last event leaves nothing to do: the schema is gone, or it is being deleted without the
  -- finalizer, or an update has just given the finalizer up, or a status with the condition Ready
  -- True has just been accepted.
  abbrev pub IsFinal : Trace → Type 0
  IsFinal (got_schema key (err e) ∷ t) = IsNotFound e
  IsFinal (got_schema key (ok s) ∷ t) =
      (is_zero s.metadata.deletion_timestamp ≡ false)
      × (w.contains_finalizer s.metadata.finalizers schema_finalizer ≡ false)
  IsFinal (updated_schema s none ∷ t) =
      w.contains_finalizer s.metadata.finalizers schema_finalizer ≡ false
  IsFinal (updated_schema_status s none ∷ t) =
      (c : Condition) × (find_condition "Ready" s.status.conditions ≡ some c)
      × (c.status ≡ condition_true)
  IsFinal _ = ⊥

  abbrev Settles : Outcome → Trace → Type 0
  Settles r t = r ≡ done → IsFinal t

  pub stop_error : (e : Error) → stop (some e) ≢ done
  stop_error e h = ground arith

  requeue-ne : (m : Run (Option Error)) (t : Trace) → (requeue_with minute m t).0 ≢ done
  unfolding requeue_with
  requeue-ne m t h = ground arith

  module _ (d : IsDocumented w) where
    -- A failed read settles the matter only if there is no such object.
    pub ignored : (e : Error) → stop (w.ignore_not_found e) ≡ done → IsNotFound e
    ignored e h = elim (IsNotFound-or_not e) [
      | inl gone ↦ gone
      | inr other ↦ absurd (stop_error e (rw (d.ignore-others e other) at h))
    ]

    release-Settles :
        (s : Schema) (t : Trace) → Settles (finish (release w s) t).0 (finish (release w s) t).1
    unfolding release
    release-Settles s t =
        let wrote = with_finalizers s (w.remove_finalizer s.metadata.finalizers schema_finalizer) in
        elim (Option-cases (w.update_schema t wrote)) [
          | inl accepted ↦ rw accepted λ h. d.contains-remove s.metadata.finalizers schema_finalizer
          | inr (e, refused) ↦ rw refused λ h. absurd (stop_error e h)
        ]

    record_registered-Ends :
        (key : ObjectKey) (resp : SchemaResponse) → Ends Settles (record_registered w key resp)
    unfolding record_registered write_registered
    record_registered-Ends key resp = record {
      at = λ t. elim (Result-cases (w.get_schema t key)) [
        | inl (s, found) ↦
            let read = got_schema key (ok s) ∷ t in
            let time = w.now read in
            let before = read_clock time ∷ read in
            let condition = registered_condition w s resp in
            let (c, there, status, same_reason, same_message, generation) =
              d.find-set before s.status.conditions condition in
            let cs = w.set_status_condition before s.status.conditions condition in
            let wrote = record s { status = registered_status w s resp time cs } in
            elim (Option-cases (w.update_schema_status before wrote)) [
              | inl accepted ↦ rw (found, accepted) λ h. (c, there, status)
              | inr (e, refused) ↦ rw (found, refused) λ h. absurd (stop_error e h)
            ]
        | inr (e, failed) ↦ rw failed λ h. ignored e h
      ];
    }

    failed-Settles :
        (m : Run (Option Error)) (t : Trace)
        → Settles (requeue_with minute m t).0 (requeue_with minute m t).1
    failed-Settles m t h = absurd (requeue-ne m t h)

    register-Ends : (key : ObjectKey) (s : Schema) → Ends Settles (register w key s)
    unfolding register
    register-Ends key s = search (ends_rules, failed-Settles, record_registered-Ends) depth 20

    finalize-Settles :
        (key : ObjectKey) (s : Schema) (t : Trace)
        → is_zero s.metadata.deletion_timestamp ≡ false
        → let before = got_schema key (ok s) ∷ t in
          Settles (finish (finalize w s) before).0 (finish (finalize w s) before).1
    unfolding finalize
    finalize-Settles key s t dying =
        let before = got_schema key (ok s) ∷ t in
        elim (Bool-cases (w.contains_finalizer s.metadata.finalizers schema_finalizer)) [
          | inl held ↦ elim (Option-cases (delete_from_registry w s before).0) [
            | inl deleted ↦
                rw (held, deleted) (release-Settles s (delete_from_registry w s before).1)
            | inr (e, failed) ↦ rw (held, failed) λ h. absurd (stop_error e h)
          ]
          | inr absent ↦ rw absent λ h. (dying, absent)
        ]

    refetch-Leaves :
        (key : ObjectKey) (refused : Option Error) (t : Trace)
        → Allows Settles (refetch w key refused t).0 (refetch w key refused t).1
    unfolding refetch
    refetch-Leaves key (some e) t = λ h. absurd (stop_error e h)
    refetch-Leaves key none t = elim (Result-cases (w.get_schema t key)) [
      | inl (s, found) ↦ rw found tt
      | inr (e, failed) ↦ rw failed λ h. ignored e h
    ]

    ensure_finalizer-Leaves :
        (key : ObjectKey) (s : Schema) → Leaves Settles (ensure_finalizer w key s)
    unfolding ensure_finalizer
    ensure_finalizer-Leaves key s = record {
      at = λ t. elim (Bool-cases (w.contains_finalizer s.metadata.finalizers schema_finalizer)) [
        | inl held ↦ rw held tt
        | inr absent ↦
            let wrote =
              with_finalizers s (w.add_finalizer s.metadata.finalizers schema_finalizer) in
            rw absent (
              refetch-Leaves key (w.update_schema t wrote)
                (updated_schema wrote (w.update_schema t wrote) ∷ t))
      ];
    }

    -- If a reconciliation ends without an error and asks for no further round, then nothing is left
    -- to do: its last event is a read that found no such schema, a read of a schema that is being
    -- deleted without the finalizer, an accepted update that gives the finalizer up, or an accepted
    -- update of the status in which the condition Ready is True.
    pub reconcile-IsFinal :
        (key : ObjectKey) (t : Trace) → (reconcile w key t).0 ≡ done → IsFinal (reconcile w key t).1
    unfolding reconcile
    reconcile-IsFinal key t = elim (Result-cases (w.get_schema t key)) [
      | inl (s, found) ↦ elim (Bool-cases (is_zero s.metadata.deletion_timestamp)) [
        | inl live ↦
            let before = got_schema key (ok s) ∷ t in
            rw (found, live)
              (Ends-proceed (ensure_finalizer w key s before).0 (register w key)
                (ensure_finalizer w key s before).1 ((ensure_finalizer-Leaves key s).at before)
                (register-Ends key))
        | inr dying ↦ rw (found, dying) (finalize-Settles key s t dying)
      ]
      | inr (e, failed) ↦ rw failed λ h. ignored e h
    ]
