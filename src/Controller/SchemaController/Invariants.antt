-- ===== src/Controller/SchemaController/Invariants.antt =====
-- The registration path of the reconciler keeps what its events keep.
use schema_strimzi_operator.Prelude.{ℕ, String, List, ◌∷◌}
use schema_strimzi_operator.Api.Meta.{ObjectKey, Condition, Timestamp}
use schema_strimzi_operator.Api.SchemaTypes.{Schema}
use schema_strimzi_operator.Client.Types.{SchemaResponse}
use schema_strimzi_operator.World.{
  World, Trace, got_schema, updated_schema, updated_schema_status, read_clock,
}
use schema_strimzi_operator.Controller.Effects.{
  get_schema, update_schema, update_schema_status, now, set_status_condition, requeue_with,
}
use schema_strimzi_operator.Controller.Keeps.{Keeps, keeps_rules}
use schema_strimzi_operator.Controller.Quiet.{KeepsSent, register_schema-Keeps}
use schema_strimzi_operator.Controller.SchemaController.{
  release, finalize, refetch, ensure_finalizer, write_failed, set_condition_failed,
  write_registered, record_registered, register, reconcile,
}
use schema_strimzi_operator.Controller.SchemaController.Parts.{
  IsQuiet, build_client-Keeps, delete_from_registry-Keeps, apply_compatibility-Keeps,
}

-- The property is kept by all events but updates of schemas and requests, with the answers that the
-- world gives.
pub record Tolerates (w : World) (I : Trace → Type 0) : Type 0 where
  pub quiet : IsQuiet I
  pub get : (key : ObjectKey) (t : Trace) → I t → I (got_schema key (w.get_schema t key) ∷ t)
  pub clock : (time : Timestamp) (t : Trace) → I t → I (read_clock time ∷ t)
  pub status :
      (s : Schema) (t : Trace) → I t → I (updated_schema_status s (w.update_schema_status t s) ∷ t)

module _ (w : World) {I : Trace → Type 0} (tol : Tolerates w I) where
  pub get_schema-Keeps : (key : ObjectKey) → Keeps I (get_schema w key)
  unfolding get_schema
  get_schema-Keeps key = record { at = λ t h. tol.get key t h }

  status-Keeps : (s : Schema) → Keeps I (update_schema_status w s)
  unfolding update_schema_status
  status-Keeps s = record { at = λ t h. tol.status s t h }

  now-Keeps : Keeps I (now w)
  unfolding now
  now-Keeps = record { at = λ t h. tol.clock _ t h }

  condition-Keeps : (cs : List Condition) (c : Condition) → Keeps I (set_status_condition w cs c)
  unfolding set_status_condition
  condition-Keeps cs c = record { at = λ t h. h }

  write_failed-Keeps :
      (reason message : String) (s : Schema) → Keeps I (write_failed w reason message s)
  unfolding write_failed
  write_failed-Keeps reason message s = search (keeps_rules, status-Keeps, condition-Keeps) depth 16

  pub set_condition_failed-Keeps :
      (s : Schema) (reason message : String) → Keeps I (set_condition_failed w s reason message)
  unfolding set_condition_failed
  set_condition_failed-Keeps s reason message =
      search (keeps_rules, get_schema-Keeps, write_failed-Keeps) depth 16

  write_registered-Keeps :
      (resp : SchemaResponse) (s : Schema) → Keeps I (write_registered w resp s)
  unfolding write_registered
  write_registered-Keeps resp s =
      search (keeps_rules, status-Keeps, condition-Keeps, now-Keeps) depth 20

  pub record_registered-Keeps :
      (key : ObjectKey) (resp : SchemaResponse) → Keeps I (record_registered w key resp)
  unfolding record_registered
  record_registered-Keeps key resp =
      search (keeps_rules, get_schema-Keeps, write_registered-Keeps) depth 24

-- The same where the status updates keep the property for reasons of their own.
module _ (w : World) {I : Trace → Type 0} {M : String → Type 0} (q : IsQuiet I)
    (on_sent : KeepsSent M I)
    (failed : (s : Schema) (reason message : String)
      → Keeps I (set_condition_failed w s reason message))
    (recorded : (key : ObjectKey) (resp : SchemaResponse)
      → Keeps I (record_registered w key resp)) where
  requeue_failed-Keeps :
      (delay : ℕ) (s : Schema) (reason message : String)
      → Keeps I (requeue_with delay (set_condition_failed w s reason message))
  unfolding requeue_with
  requeue_failed-Keeps delay s reason message = record {
    at = λ t h. (failed s reason message).at t h;
  }

  pub register_parts-Keeps :
      M "POST" → M "GET" → M "PUT" → (key : ObjectKey) (s : Schema) → Keeps I (register w key s)
  unfolding register
  register_parts-Keeps posts gets puts key s =
      search
        (
          keeps_rules,
          recorded,
          requeue_failed-Keeps,
          build_client-Keeps w q,
          register_schema-Keeps w on_sent,
          apply_compatibility-Keeps w on_sent,
        )
        depth 30

module _ (w : World) {I : Trace → Type 0} {M : String → Type 0} (tol : Tolerates w I)
    (on_sent : KeepsSent M I) where
  pub register-Keeps :
      M "POST" → M "GET" → M "PUT" → (key : ObjectKey) (s : Schema) → Keeps I (register w key s)
  register-Keeps =
      register_parts-Keeps w tol.quiet on_sent (set_condition_failed-Keeps w tol)
        (record_registered-Keeps w tol)

-- The whole reconciler, where updates of schemas keep the property too.
module _ (w : World) {I : Trace → Type 0} (tol : Tolerates w I)
    (on_sent : KeepsSent (λ _. Unit {0}) I)
    (on_update : (s : Schema) (t : Trace)
      → I t
      → I (updated_schema s (w.update_schema t s) ∷ t)) where
  update-Keeps : (s : Schema) → Keeps I (update_schema w s)
  unfolding update_schema
  update-Keeps s = record { at = λ t h. on_update s t h }

  finalize-Keeps : (s : Schema) → Keeps I (finalize w s)
  unfolding finalize release
  finalize-Keeps s =
      search (keeps_rules, delete_from_registry-Keeps w tol.quiet on_sent s tt) depth 20

  ensure_finalizer-Keeps : (key : ObjectKey) (s : Schema) → Keeps I (ensure_finalizer w key s)
  unfolding ensure_finalizer refetch
  ensure_finalizer-Keeps key s = search (keeps_rules, update-Keeps, get_schema-Keeps w tol) depth 16

  pub reconcile-Keeps : (key : ObjectKey) → Keeps I (reconcile w key)
  unfolding reconcile
  reconcile-Keeps key =
      search
        (
          keeps_rules,
          get_schema-Keeps w tol,
          finalize-Keeps,
          ensure_finalizer-Keeps,
          register-Keeps w tol on_sent tt tt tt,
        )
        depth 20
