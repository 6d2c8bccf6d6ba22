-- ===== src/Tests/OutcomeTests.antt =====
-- How a reconciliation of the sample schema ends in several worlds.
use schema_strimzi_operator.Prelude.{
  true, false, none, [], ◌∷◌, ◌≡◌, ◌≢◌, ◌⊎◌, ◌↔◌, refl, mul_int64,
}
use schema_strimzi_operator.Error.{Error, ok, err}
use schema_strimzi_operator.Api.Meta.{ObjectKey, is_zero, entry}
use schema_strimzi_operator.Api.RegistryTypes.{SchemaRegistry}
use schema_strimzi_operator.Api.SchemaTypes.{Schema}
use schema_strimzi_operator.Client.Types.{SchemaRegistryClient}
use schema_strimzi_operator.Client.Requests.{new_client, new_tls_config}
use schema_strimzi_operator.Controller.Helpers.{load_auth_config, request_timeout}
use schema_strimzi_operator.World.{World, Trace, updated_schema_status}
use schema_strimzi_operator.Controller.Effects.{Outcome, key_of}
use schema_strimzi_operator.Controller.SchemaController.{build_client, reconcile}
use schema_strimzi_operator.Controller.SchemaController.Clients.{
  IsClientFor, build_client-IsClientFor,
}
use schema_strimzi_operator.Controller.SchemaController.Release.{
  attempt, IsLetGo, IsDeleted, reconcile-eq-done_iff,
}
use schema_strimzi_operator.Controller.SchemaController.Rounds.{Verdict, reconcile-Verdict}
use schema_strimzi_operator.Tests.Sample.{
  world, world_with, world_with-IsDocumented, schema, dying, client,
}

abbrev key : ObjectKey
key = key_of schema.metadata

dying-deleted : is_zero dying.metadata.deletion_timestamp ≡ false
unfolding is_zero
dying-deleted = refl

schema-live : is_zero schema.metadata.deletion_timestamp ≡ true
unfolding is_zero
schema-live = refl

-- The registry answers every request with 404: the subject is gone already.
abbrev missing : World
missing = world_with dying 404

reconcile-eq-done_iff_example :
    ((reconcile missing key []).0 ≡ record { requeue_after = 0; error = none }) ↔ (
      ((e : Error) × ((attempt missing key dying []).0 ≡ err e)
        × IsLetGo missing key dying [] (attempt missing key dying []).1)
      ⊎ ((c : SchemaRegistryClient) × ((attempt missing key dying []).0 ≡ ok c)
          × IsDeleted missing key dying [] c))
reconcile-eq-done_iff_example = reconcile-eq-done_iff missing key dying [] refl dying-deleted refl

-- The registry refuses every request.
abbrev failing : World
failing = world_with schema 500

reconcile-Verdict_example :
    (out : Outcome) × (x : Schema) × (rest : Trace) × (reconcile failing key []
      ≡ (out, updated_schema_status x none ∷ rest))
    × (x ≡ record schema { status = x.status })
    × Verdict failing key schema [] out x
reconcile-Verdict_example =
    reconcile-Verdict failing key schema [] (λ t. refl) (λ t x. refl) schema-live refl refl
      (world_with-IsDocumented schema 500)

client-built : (build_client world schema []).0 ≡ ok client
unfolding build_client load_auth_config entry new_client new_tls_config request_timeout mul_int64
client-built = refl

build_client-IsClientFor_example :
    (key : ObjectKey) × (sr : SchemaRegistry) × (world.get_registry [] key ≡ ok sr)
    × (key.name ≡ schema.spec.registry_ref.name)
    × (((schema.spec.registry_ref.namespace ≡ "") × (key.namespace ≡ schema.metadata.namespace))
        ⊎ ((schema.spec.registry_ref.namespace ≢ "")
            × (key.namespace ≡ schema.spec.registry_ref.namespace)))
    × IsClientFor sr client
build_client-IsClientFor_example = build_client-IsClientFor world schema [] client client-built
