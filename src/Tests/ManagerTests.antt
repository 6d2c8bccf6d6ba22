-- ===== src/Tests/ManagerTests.antt =====
-- The theorems about the manager at a concrete command line.
use schema_strimzi_operator.Prelude.{
  ◌*◌, ◌≤◌, true, some, [], ◌∷◌, ◌++◌, ◌≡◌, ◌↔◌, inl, inr, refl, none,
}
use schema_strimzi_operator.World.{Trace}
use schema_strimzi_operator.Manager.Options.{
  ServerTls, default_flags, with_authentication_and_authorization, apply_opts, manager_options,
}
use schema_strimzi_operator.Manager.Setup.{
  setup_schema_reconciler, setup_schema_registry_reconciler,
}
use schema_strimzi_operator.Manager.Start.{Host, start, process}
use schema_strimzi_operator.Manager.Servers.{offered, manager_options-protected}
use schema_strimzi_operator.Manager.Order.{preparations, follow, process-follow}
use schema_strimzi_operator.Manager.Histories.{
  Reach, IsLawful, reconciles, nothing, later, Reach-IsLawful,
}
use schema_strimzi_operator.Manager.Load.{requests, updates, status_updates, steps, Reach-load}
use schema_strimzi_operator.Controller.Effects.{key_of}
use schema_strimzi_operator.Tests.Sample.{world, world_with-IsDocumented, schema, registry}

abbrev both : ServerTls
both = record { next_protos = "h2" ∷ "http/1.1" ∷ [] }

manager_options-protected_example :
    let options = manager_options default_flags in
    ((apply_opts options.webhook_server.tls_opts both).next_protos ≡ offered default_flags both)
    × ((apply_opts options.metrics.tls_opts both).next_protos ≡ offered default_flags both)
    × ((options.metrics.filter_provider ≡ some with_authentication_and_authorization)
        ↔ (options.metrics.secure_serving ≡ true))
    × (options.webhook_server.cert_dir ≡ default_flags.webhook_cert_path)
    × (options.metrics.cert_dir ≡ default_flags.metrics_cert_path)
manager_options-protected_example = manager_options-protected default_flags both

-- Every call succeeds.
abbrev fine : Host
fine log c = none

process-follow_example :
    process fine world default_flags "" []
    ≡ follow fine (preparations world default_flags "" ++ (start ∷ [])) []
process-follow_example = process-follow fine world default_flags "" []

abbrev checked : Trace
checked = ((setup_schema_registry_reconciler world).reconcile (key_of registry.metadata) []).1

abbrev registered : Trace
registered = ((setup_schema_reconciler world).reconcile (key_of schema.metadata) checked).1

-- First the registry is reconciled, then the schema.
registered-Reach : Reach world registered
registered-Reach =
    later (later nothing (reconciles (key_of registry.metadata) (inr (inl refl))))
      (reconciles (key_of schema.metadata) (inl refl))

Reach-IsLawful_example : IsLawful world registered
Reach-IsLawful_example =
    Reach-IsLawful world (world_with-IsDocumented schema 200) {t = registered} registered-Reach

-- One reconciliation of each controller: the registry's, and the schema's.
Reach-load_example :
    (requests registered ≤ 3 * steps world registered-Reach)
    × (updates registered ≤ steps world registered-Reach)
    × (status_updates registered ≤ steps world registered-Reach)
Reach-load_example = Reach-load world {t = registered} registered-Reach
