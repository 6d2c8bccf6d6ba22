-- ===== src/Controller/RegistryController/Invariants.antt =====
-- The reconciler of SchemaRegistry keeps what its events keep.
use schema_strimzi_operator.Prelude.{ℕ, String, Option, List, ◌∷◌}
use schema_strimzi_operator.Error.{Error}
use schema_strimzi_operator.Api.Meta.{ObjectKey, Condition, Timestamp}
use schema_strimzi_operator.Api.RegistryTypes.{SchemaRegistry}
use schema_strimzi_operator.World.{World, Trace, updated_registry_status, read_clock}
use schema_strimzi_operator.Controller.Effects.{
  get_registry, update_registry_status, now, set_status_condition, requeue_with,
}
use schema_strimzi_operator.Controller.Keeps.{Keeps, keeps_rules}
use schema_strimzi_operator.Controller.Quiet.{KeepsSent, health_check-Keeps}
use schema_strimzi_operator.Controller.SchemaController.Parts.{IsQuiet, auth-Keeps}
use schema_strimzi_operator.Controller.RegistryController.{
  set_condition_failed, record_health, reconcile,
}

-- The property is kept by all events of this reconciler but requests.
pub record Tolerates (I : Trace → Type 0) : Type 0 where
  pub quiet : IsQuiet I
  pub clock : (time : Timestamp) (t : Trace) → I t → I (read_clock time ∷ t)
  pub status :
      (sr : SchemaRegistry) (answer : Option Error) (t : Trace)
      → I t
      → I (updated_registry_status sr answer ∷ t)

module _ (w : World) {I : Trace → Type 0} {M : String → Type 0} (tol : Tolerates I)
    (on_sent : KeepsSent M I) where
  get_registry-Keeps : (key : ObjectKey) → Keeps I (get_registry w key)
  unfolding get_registry
  get_registry-Keeps key = record { at = λ t h. tol.quiet.registry key _ t h }

  status-Keeps : (sr : SchemaRegistry) → Keeps I (update_registry_status w sr)
  unfolding update_registry_status
  status-Keeps sr = record { at = λ t h. tol.status sr _ t h }

  now-Keeps : Keeps I (now w)
  unfolding now
  now-Keeps = record { at = λ t h. tol.clock _ t h }

  condition-Keeps : (cs : List Condition) (c : Condition) → Keeps I (set_status_condition w cs c)
  unfolding set_status_condition
  condition-Keeps cs c = record { at = λ t h. h }

  set_condition_failed-Keeps :
      (sr : SchemaRegistry) (reason message : String)
      → Keeps I (set_condition_failed w sr reason message)
  unfolding set_condition_failed
  set_condition_failed-Keeps sr reason message =
      search (keeps_rules, get_registry-Keeps, status-Keeps, condition-Keeps) depth 20

  requeue_failed-Keeps :
      (delay : ℕ) (sr : SchemaRegistry) (reason message : String)
      → Keeps I (requeue_with delay (set_condition_failed w sr reason message))
  unfolding requeue_with
  requeue_failed-Keeps delay sr reason message = record {
    at = λ t h. (set_condition_failed-Keeps sr reason message).at t h;
  }

  record_health-Keeps :
      (key : ObjectKey) (health : Option Error) → Keeps I (record_health w key health)
  unfolding record_health
  record_health-Keeps key health =
      search (keeps_rules, get_registry-Keeps, status-Keeps, now-Keeps, condition-Keeps) depth 24

  pub reconcile-Keeps : M "GET" → (key : ObjectKey) → Keeps I (reconcile w key)
  unfolding reconcile
  reconcile-Keeps gets key =
      search
        (
          keeps_rules,
          get_registry-Keeps,
          auth-Keeps w tol.quiet,
          requeue_failed-Keeps,
          health_check-Keeps w on_sent,
          record_health-Keeps,
        )
        depth 24
