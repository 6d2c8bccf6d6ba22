-- ===== src/Controller/SchemaController/Bounds.antt =====
-- How many requests and updates a reconciliation of Schema makes at most.
use schema_strimzi_operator.Prelude.{ℕ, ◌+◌, ◌≤◌, String, arith}
use schema_strimzi_operator.Api.Meta.{ObjectKey}
use schema_strimzi_operator.Api.SchemaTypes.{Schema}
use schema_strimzi_operator.Client.Types.{SchemaRegistryClient, SchemaResponse}
use schema_strimzi_operator.World.{World}
use schema_strimzi_operator.Controller.Effects.{requeue_with}
use schema_strimzi_operator.Controller.Spends.{Spends, Spends-le, Spends-Keeps, spends_rules}
use schema_strimzi_operator.Controller.Costs.{
  costs, get_schema-Spends, bind-now-Spends, condition-Spends, update-Spends, status-Spends,
  requeue-Spends, register_schema-Spends, delete_subject-Spends, set_compatibility-Spends,
}
use schema_strimzi_operator.Controller.SchemaController.{
  build_client, delete_from_registry, release, finalize, refetch, ensure_finalizer,
  apply_compatibility, write_failed, set_condition_failed, write_registered, record_registered,
  register, reconcile,
}
use schema_strimzi_operator.Controller.SchemaController.Parts.{build_client-Keeps}

module _ (w : World) (q u s : ℕ) where
  build_client-Spends : (x : Schema) → Spends (costs q u s) 0 (build_client w x)
  build_client-Spends x = Spends-Keeps (build_client w x) (λ limit.
      build_client-Keeps w
        (record { registry = λ key r t h. omega arith; secret = λ key r t h. omega arith }) x)

  delete_from_registry-Spends : (x : Schema) → Spends (costs q u s) q (delete_from_registry w x)
  unfolding delete_from_registry
  delete_from_registry-Spends x =
      search (spends_rules, build_client-Spends, delete_subject-Spends w q u s) depth 16

  finalize-Spends : (x : Schema) → Spends (costs q u s) (q + u) (finalize w x)
  unfolding finalize release
  finalize-Spends x =
      search (spends_rules, delete_from_registry-Spends, update-Spends w q u s) depth 20

  ensure_finalizer-Spends :
      (key : ObjectKey) (x : Schema) → Spends (costs q u s) u (ensure_finalizer w key x)
  unfolding ensure_finalizer refetch
  ensure_finalizer-Spends key x =
      search (spends_rules, update-Spends w q u s, get_schema-Spends w q u s) depth 20

  apply_compatibility-Spends :
      (c : SchemaRegistryClient) (x : Schema) → Spends (costs q u s) q (apply_compatibility w c x)
  unfolding apply_compatibility
  apply_compatibility-Spends c x = search (spends_rules, set_compatibility-Spends w q u s) depth 16

  set_condition_failed-Spends :
      (x : Schema) (reason message : String)
      → Spends (costs q u s) s (set_condition_failed w x reason message)
  unfolding set_condition_failed write_failed
  set_condition_failed-Spends x reason message =
      search
        (spends_rules, get_schema-Spends w q u s, condition-Spends w q u s, status-Spends w q u s)
        depth 20

  write_registered-Spends :
      (resp : SchemaResponse) (x : Schema) → Spends (costs q u s) s (write_registered w resp x)
  unfolding write_registered
  write_registered-Spends resp x =
      search
        (spends_rules, bind-now-Spends w q u s, condition-Spends w q u s, status-Spends w q u s)
        depth 24

  record_registered-Spends :
      (key : ObjectKey) (resp : SchemaResponse)
      → Spends (costs q u s) s (record_registered w key resp)
  unfolding record_registered
  record_registered-Spends key resp =
      search (spends_rules, get_schema-Spends w q u s, write_registered-Spends) depth 24

  -- A failure is recorded with what the rest of the reconciliation would cost.
  requeue_failed-Spends :
      (n delay : ℕ) (x : Schema) (reason message : String)
      → s ≤ n
      → Spends (costs q u s) n (requeue_with delay (set_condition_failed w x reason message))
  requeue_failed-Spends n delay x reason message le = requeue-Spends w q u s delay (
      Spends-le n (set_condition_failed w x reason message) le
        (set_condition_failed-Spends x reason message))

  register-Spends :
      (key : ObjectKey) (x : Schema) → Spends (costs q u s) (q + q + (q + s)) (register w key x)
  unfolding register
  register-Spends key x =
      let first = λ (delay : ℕ) (y : Schema) (reason message : String).
        requeue_failed-Spends (q + q + (q + s)) delay y reason message (omega arith) in
      let second = λ (delay : ℕ) (y : Schema) (reason message : String).
        requeue_failed-Spends (q + s) delay y reason message (omega arith) in
      search
        (
          spends_rules,
          first,
          second,
          build_client-Spends,
          register_schema-Spends w q u s,
          apply_compatibility-Spends,
          record_registered-Spends,
        )
        depth 24

  pub reconcile-Spends :
      (key : ObjectKey) → Spends (costs q u s) (u + (q + q + (q + s))) (reconcile w key)
  unfolding reconcile
  reconcile-Spends key =
      let deleted = λ (x : Schema).
        Spends-le (u + (q + q + (q + s))) (finalize w x) (omega arith) (finalize-Spends x) in
      search
        (spends_rules, get_schema-Spends w q u s, deleted, ensure_finalizer-Spends, register-Spends)
        depth 20
