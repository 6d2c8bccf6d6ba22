-- ===== src/Tests/ReconcileTests.antt =====
-- The theorems about the reconciler of Schema at concrete worlds, and runs of it.
use schema_strimzi_operator.Prelude.{true, false, [], ◌≡◌, refl}
use schema_strimzi_operator.Api.Meta.{ObjectKey, is_zero}
use schema_strimzi_operator.World.{World}
use schema_strimzi_operator.Controller.Effects.{done, key_of}
use schema_strimzi_operator.Controller.Keeps.{Holds}
use schema_strimzi_operator.Controller.SchemaController.{reconcile, schema_controller}
use schema_strimzi_operator.Controller.SchemaController.Finalizer.{
  ReleaseRule, reconcile-ReleaseRule,
}
use schema_strimzi_operator.Controller.SchemaController.Registration.{
  RegisterRule, reconcile-RegisterRule,
}
use schema_strimzi_operator.Controller.SchemaController.Phases.{PhaseRule, reconcile-PhaseRule}
use schema_strimzi_operator.Controller.SchemaController.Readiness.{ReadyRule, reconcile-ReadyRule}
use schema_strimzi_operator.Controller.SchemaController.Settled.{IsFinal, reconcile-IsFinal}
use schema_strimzi_operator.Controller.Helpers.{load_auth_config}
use schema_strimzi_operator.Client.Requests.{new_client}
use schema_strimzi_operator.Client.Calls.{register_schema, delete_subject}
use schema_strimzi_operator.Tests.Sample.{world, world_with, world_with-IsDocumented, schema, dying}

-- The world in which the schema is to be deleted.
abbrev dying_world : World
dying_world = world_with dying 200

abbrev key : ObjectKey
key = key_of schema.metadata

-- A reconciliation of the sample succeeds.
reconcile-done : (reconcile world key []).0 ≡ done
unfolding schema_controller is_zero load_auth_config new_client register_schema
reconcile-done = refl

-- So does the deletion.
reconcile-deleted : (reconcile dying_world key []).0 ≡ done
unfolding schema_controller is_zero load_auth_config new_client delete_subject
reconcile-deleted = refl

reconcile-ReleaseRule_example : Holds (ReleaseRule dying_world) (reconcile dying_world key []).1
reconcile-ReleaseRule_example =
    reconcile-ReleaseRule dying_world (world_with-IsDocumented dying 200) key [] tt

reconcile-RegisterRule_example : Holds (RegisterRule world) (reconcile world key []).1
reconcile-RegisterRule_example =
    reconcile-RegisterRule world (world_with-IsDocumented schema 200) key [] tt

dying-deleted : is_zero dying.metadata.deletion_timestamp ≡ false
unfolding is_zero
dying-deleted = refl

schema-live : is_zero schema.metadata.deletion_timestamp ≡ true
unfolding is_zero
schema-live = refl

reconcile-PhaseRule_example :
    Holds
      (PhaseRule dying_world (is_zero dying.metadata.deletion_timestamp))
      (reconcile dying_world key []).1
reconcile-PhaseRule_example = reconcile-PhaseRule dying_world key dying [] refl tt

reconcile-ReadyRule_example : Holds (ReadyRule world) (reconcile world key []).1
reconcile-ReadyRule_example =
    reconcile-ReadyRule world (world_with-IsDocumented schema 200) key [] tt

reconcile-IsFinal_example : IsFinal world (reconcile world key []).1
reconcile-IsFinal_example =
    reconcile-IsFinal world (world_with-IsDocumented schema 200) key [] reconcile-done
