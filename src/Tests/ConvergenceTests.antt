-- ===== src/Tests/ConvergenceTests.antt =====
-- A schema in an API server that checks resource versions.
use schema_strimzi_operator.Prelude.{
  String, true, false, Option, none, some, pos, inr, [], ◌∷◌, ◌≡◌, refl, eq_refl, ◌==◌, string_eq,
  ◌<>◌, if◌then◌else◌,
}
use schema_strimzi_operator.Error.{Error, not_found, message, Result, ok, err}
use schema_strimzi_operator.Api.Meta.{ObjectKey, is_zero}
use schema_strimzi_operator.Api.SchemaTypes.{Schema}
use schema_strimzi_operator.World.{World, IsDocumented, Event, Trace, updated_schema, sent}
use schema_strimzi_operator.Client.Types.{SchemaRegistryClient, HttpResponse}
use schema_strimzi_operator.Client.Requests.{bare_request, subject_url}
use schema_strimzi_operator.Webhook.RegistryWebhook.{validate_create}
use schema_strimzi_operator.Controller.Effects.{done, key_of}
use schema_strimzi_operator.Controller.Storage.{at_version, changes, stored, IsServer}
use schema_strimzi_operator.Controller.SchemaController.{
  schema_finalizer, with_finalizers, registry_key, reconcile,
}
use schema_strimzi_operator.Controller.SchemaController.Convergence.{reconcile-Converges}
use schema_strimzi_operator.Controller.SchemaController.Convergence.Converged.{IsConverged, rounds}
use schema_strimzi_operator.Controller.SchemaController.Removal.{
  IsReleased, Rests, reconcile-Removes,
}
use schema_strimzi_operator.Tests.Sample.{
  storing, storing-IsDocumented, schema, dying, registry, secret, answer,
}

-- The schema has just been created.
abbrev bare : Schema
bare = with_finalizers schema []

abbrev key : ObjectKey
key = key_of bare.metadata

-- One more mark for each accepted update.
abbrev version : Trace → String
version [] = "1"
version (e ∷ t) = let v = version t in if changes key e then v <> "1" else v

abbrev unless_current : Trace → Schema → Option Error
unless_current t s =
    if s.metadata.resource_version == version t then none else some (message "conflict")

abbrev answer_read : String → Option Schema → Result Schema
answer_read v none = err (not_found "schema")
answer_read v (some s) = ok (at_version v s)

abbrev answer_stored : Schema → Trace → ObjectKey → Result Schema
answer_stored first t k = answer_read (version t) (stored key first t)

abbrev serving : Schema → World
serving first = storing (answer_stored first) unless_current

serving-IsDocumented : (first : Schema) → IsDocumented (serving first)
serving-IsDocumented first = storing-IsDocumented (answer_stored first) unless_current

current :
    (t : Trace) (s : Schema) → s.metadata.resource_version ≡ version t → unless_current t s ≡ none
current t s same = rw (same, eq_refl (version t)) refl

steady : (e : Event) (t : Trace) → changes key e ≡ false → version (e ∷ t) ≡ version t
steady e t same = rw same refl

serving-IsServer : (first : Schema) → IsServer (serving first) key version first
serving-IsServer first = record {
  read = λ t s kept. rw kept refl;
  read_gone = λ t gone. ("schema", rw gone refl);
  update = λ t s before kept same. current t s;
  update_status = λ t s before kept same. current t s;
  steady = steady;
}

registry-accepted : validate_create (serving bare) registry ≡ none
unfolding validate_create
registry-accepted = refl

bare-live : is_zero bare.metadata.deletion_timestamp ≡ true
unfolding is_zero
bare-live = refl

bare-refers : registry_key bare ≡ key_of registry.metadata
unfolding registry_key
bare-refers = refl

-- The second round: the finalizer is there, and the version has changed twice.
reconcile-Converges_example :
    let t = rounds (serving bare) key 1 in
    ((reconcile (serving bare) key t).0 ≡ done)
    × ((s : Schema) × (stored key bare (reconcile (serving bare) key t).1 ≡ some s)
        × IsConverged (serving bare) (pos 7) bare s)
reconcile-Converges_example =
    reconcile-Converges (serving bare) (serving-IsDocumented bare) key version bare
      (serving-IsServer bare) registry (key_of registry.metadata) (λ t. refl) registry-accepted
      (λ t k. (secret, refl)) (λ cert k. refl) (pos 7) (λ body. refl) (λ method url. refl)
      (λ t client req post. (answer 200, refl, refl, refl)) bare-live refl bare-refers 1

dying-accepted : validate_create (serving dying) registry ≡ none
unfolding validate_create
dying-accepted = refl

dying-deleted : is_zero dying.metadata.deletion_timestamp ≡ false
unfolding is_zero
dying-deleted = refl

dying-refers : registry_key dying ≡ key_of registry.metadata
unfolding registry_key
dying-refers = refl

reconcile-Removes_example :
    ((c : SchemaRegistryClient) × (resp : HttpResponse) × (s : Schema) × (t : Trace) × (reconcile
          (serving dying)
          key
          []
        ≡ (
          done,
          updated_schema s none
              ∷ sent c.http_client
                  (bare_request (serving dying) c "DELETE" (subject_url c "users-value"))
                  (ok resp)
              ∷ t,
        ))
      × ((serving dying).contains_finalizer s.metadata.finalizers schema_finalizer ≡ false))
    × IsReleased (serving dying) (stored key dying (rounds (serving dying) key 2))
    × Rests (serving dying) key (rounds (serving dying) key 2)
reconcile-Removes_example =
    reconcile-Removes (serving dying) (serving-IsDocumented dying) key version dying
      (serving-IsServer dying) registry (key_of registry.metadata) (λ t. refl) dying-accepted
      (λ t k. (secret, refl)) (λ cert k. refl) (λ method url. refl)
      (λ t client req delete. (answer 200, refl, inr refl)) dying-deleted refl refl dying-refers 1
