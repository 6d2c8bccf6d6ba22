-- ===== src/Controller/RegistryController/Bounds.antt =====
-- How many requests and updates a reconciliation of SchemaRegistry makes at most.
use schema_strimzi_operator.Prelude.{ℕ, ◌+◌, String, Option, arith}
use schema_strimzi_operator.Error.{Error}
use schema_strimzi_operator.Api.Meta.{ObjectKey}
use schema_strimzi_operator.Api.RegistryTypes.{SchemaRegistry}
use schema_strimzi_operator.World.{World}
use schema_strimzi_operator.Controller.Effects.{requeue_with}
use schema_strimzi_operator.Controller.Helpers.{load_auth_config}
use schema_strimzi_operator.Controller.Spends.{Spends, Spends-le, Spends-Keeps, spends_rules}
use schema_strimzi_operator.Controller.Costs.{
  costs, get_registry-Spends, bind-now-Spends, condition-Spends, registry_status-Spends,
  requeue-Spends, health_check-Spends,
}
use schema_strimzi_operator.Controller.RegistryController.{
  set_condition_failed, record_health, reconcile,
}
use schema_strimzi_operator.Controller.SchemaController.Parts.{auth-Keeps}

module _ (w : World) (q u s : ℕ) where
  auth-Spends : (sr : SchemaRegistry) → Spends (costs q u s) 0 (load_auth_config w sr)
  auth-Spends sr = Spends-Keeps (load_auth_config w sr) (λ limit.
      auth-Keeps w
        (record { registry = λ key r t h. omega arith; secret = λ key r t h. omega arith }) sr)

  set_condition_failed-Spends :
      (sr : SchemaRegistry) (reason message : String)
      → Spends (costs q u s) s (set_condition_failed w sr reason message)
  unfolding set_condition_failed
  set_condition_failed-Spends sr reason message =
      search
        (
          spends_rules,
          get_registry-Spends w q u s,
          condition-Spends w q u s,
          registry_status-Spends w q u s,
        )
        depth 20

  record_health-Spends :
      (key : ObjectKey) (health : Option Error)
      → Spends (costs q u s) s (record_health w key health)
  unfolding record_health
  record_health-Spends key health =
      search
        (
          spends_rules,
          get_registry-Spends w q u s,
          bind-now-Spends w q u s,
          condition-Spends w q u s,
          registry_status-Spends w q u s,
        )
        depth 24

  requeue_failed-Spends :
      (delay : ℕ) (sr : SchemaRegistry) (reason message : String)
      → Spends (costs q u s) (q + s) (requeue_with delay (set_condition_failed w sr reason message))
  requeue_failed-Spends delay sr reason message = requeue-Spends w q u s delay (
      Spends-le (q + s) (set_condition_failed w sr reason message) (omega arith)
        (set_condition_failed-Spends sr reason message))

  pub reconcile-Spends : (key : ObjectKey) → Spends (costs q u s) (q + s) (reconcile w key)
  unfolding reconcile
  reconcile-Spends key =
      search
        (
          spends_rules,
          get_registry-Spends w q u s,
          auth-Spends,
          requeue_failed-Spends,
          health_check-Spends w q u s,
          record_health-Spends,
        )
        depth 24
