-- ===== src/Manager/Load.antt =====
-- How many requests and updates the operator makes at most.
use schema_strimzi_operator.Prelude.{ℕ, ◌+◌, ◌*◌, ◌≤◌, inl, inr, arith}
use schema_strimzi_operator.Api.Meta.{ObjectMeta}
use schema_strimzi_operator.World.{World, Trace}
use schema_strimzi_operator.Controller.Spends.{total}
use schema_strimzi_operator.Controller.Costs.{costs}
use schema_strimzi_operator.Controller.Watches.{
  find_schemas_for_registry, find_schema_registries_for_secret,
}
use schema_strimzi_operator.Controller.SchemaController.Bounds
use schema_strimzi_operator.Controller.RegistryController.Bounds as RegistryBounds
use schema_strimzi_operator.Manager.Setup.{
  setup_schema_reconciler, setup_schema_registry_reconciler,
}
use schema_strimzi_operator.Manager.Histories.{Step, reconciles, maps, Reach, nothing, later}

abbrev pub requests : Trace → ℕ
requests = total (costs 1 0 0)

-- The updates of schemas that are not updates of a status.
abbrev pub updates : Trace → ℕ
updates = total (costs 0 1 0)

abbrev pub status_updates : Trace → ℕ
status_updates = total (costs 0 0 1)

module _ (w : World) where
  -- The reconciliations and lookups that a history is made of.
  abbrev pub steps : {t : Trace} → Reach w t → ℕ
  steps nothing = 0
  steps (later before step) = steps before + 1

  module _ (q u s : ℕ) where
    find_schemas-Spends :
        (object : ObjectMeta) (t : Trace)
        → total (costs q u s) (find_schemas_for_registry w object t).1 ≤ total (costs q u s) t
    unfolding find_schemas_for_registry
    find_schemas-Spends object t = ground arith

    find_registries-Spends :
        (object : ObjectMeta) (t : Trace)
        → total (costs q u s) (find_schema_registries_for_secret w object t).1
          ≤ total (costs q u s) t
    unfolding find_schema_registries_for_secret
    find_registries-Spends object t = ground arith

    Step-Spends :
        {t t' : Trace}
        → Step w t t'
        → total (costs q u s) t' ≤ u + (q + q + (q + s)) + total (costs q u s) t
    unfolding setup_schema_reconciler setup_schema_registry_reconciler
    Step-Spends {t} (reconciles key (inl e)) = rw e ((Bounds.reconcile-Spends w q u s key).at t)
    Step-Spends {t} (reconciles key (inr (inl e))) =
        let spent = (RegistryBounds.reconcile-Spends w q u s key).at t in rw e (omega arith)
    Step-Spends {t} (maps object (inl (inl e))) =
        let spent = find_schemas-Spends object t in rw e (omega arith)
    Step-Spends {t} (maps object (inr (inl (inl e)))) =
        let spent = find_registries-Spends object t in rw e (omega arith)
    Step-Spends (reconciles key (inr (inr x))) = absurd x
    Step-Spends (maps object (inl (inr x))) = absurd x
    Step-Spends (maps object (inr (inl (inr x)))) = absurd x
    Step-Spends (maps object (inr (inr x))) = absurd x

  -- In n steps, each a reconciliation by one of the controllers or a lookup by one of the watches,
  -- and whatever the answers, the operator sends at most 3 * n requests to the registries, updates a
  -- schema at most n times, and updates the status of a schema or of a registry at most n times.
  pub Reach-load :
      {t : Trace} (reached : Reach w t)
      → (requests t ≤ 3 * steps reached)
        × (updates t ≤ steps reached)
        × (status_updates t ≤ steps reached)
  Reach-load nothing = (omega arith, omega arith, omega arith)
  Reach-load (later before step) =
      let (sent, updated, written) = Reach-load before in
      let sends = Step-Spends 1 0 0 step in
      let updating = Step-Spends 0 1 0 step in
      let writes = Step-Spends 0 0 1 step in (omega arith, omega arith, omega arith)
