-- ===== src/Tests/RegistryTests.antt =====
-- The theorems about the reconciler of SchemaRegistry at concrete worlds.
use schema_strimzi_operator.Prelude.{none, [], ◌∷◌, ◌≡◌, refl, ap}
use schema_strimzi_operator.Error.{Error, message, wrap, ok, err}
use schema_strimzi_operator.Api.Meta.{ObjectKey}
use schema_strimzi_operator.Api.RegistryTypes.{SchemaRegistry}
use schema_strimzi_operator.World.{
  World, IsDocumented, Trace, got_registry, updated_registry_status,
}
use schema_strimzi_operator.Controller.Effects.{Outcome, key_of}
use schema_strimzi_operator.Controller.Keeps.{Holds}
use schema_strimzi_operator.Controller.Helpers.{load_auth_config}
use schema_strimzi_operator.Controller.RegistryController.{reconcile}
use schema_strimzi_operator.Controller.RegistryController.Status.{StatusRule, reconcile-StatusRule}
use schema_strimzi_operator.Controller.RegistryController.Stops.{IsStopped, reconcile-IsStopped}
use schema_strimzi_operator.Controller.RegistryController.Rounds.{
  Report, reconcile-Report, reconcile-unloaded,
}
use schema_strimzi_operator.Tests.Sample.{
  world, world_with, world_with-IsDocumented, schema, registry,
}

abbrev key : ObjectKey
key = key_of registry.metadata

-- The world in which the registry answers with 500.
abbrev down : World
down = world_with schema 500

-- The world in which no secret can be read.
abbrev sealed : World
sealed = record world { get_secret = λ t key. err (message "forbidden") }

abbrev sealed_error : Error
sealed_error = wrap "failed to get basic auth secret credentials" (message "forbidden")

auth-failed :
    (load_auth_config sealed registry (got_registry key (ok registry) ∷ [])).0 ≡ err sealed_error
unfolding load_auth_config
auth-failed = refl

reconcile-StatusRule_example : Holds StatusRule (reconcile world key []).1
reconcile-StatusRule_example =
    reconcile-StatusRule world (world_with-IsDocumented schema 200) key [] tt

-- The registry answers with 500, so that it is unreachable.
reconcile-Report_example :
    (out : Outcome) × (x : SchemaRegistry) × (rest : Trace) × (reconcile down key []
      ≡ (out, updated_registry_status x none ∷ rest))
    × (x ≡ record registry { status = x.status })
    × Report down key registry [] out x
reconcile-Report_example =
    reconcile-Report down key registry [] (λ t. refl) (λ t x. refl)
      (world_with-IsDocumented schema 500) refl

sealed-IsDocumented : IsDocumented sealed
sealed-IsDocumented =
    let d = world_with-IsDocumented schema 200 in
    record {
      contains-add = d.contains-add;
      contains-remove = d.contains-remove;
      find-set = d.find-set;
      ignore-IsNotFound = d.ignore-IsNotFound;
      ignore-others = d.ignore-others;
      aggregate-nil = d.aggregate-nil;
      aggregate-cons = d.aggregate-cons;
    }

reconcile-IsStopped_example : IsStopped (reconcile sealed key []).1
reconcile-IsStopped_example = reconcile-IsStopped sealed sealed-IsDocumented key [] (
    ap (λ run. run.0)
      (reconcile-unloaded sealed key registry [] (λ t. refl) (λ t x. refl) sealed_error refl
        auth-failed))
