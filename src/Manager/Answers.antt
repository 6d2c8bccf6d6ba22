-- ===== src/Manager/Answers.antt =====
-- A rule that the answers of the world obey holds in every history that the operator can reach.
use schema_strimzi_operator.Prelude.{String, Option, List, inl, inr, arith}
use schema_strimzi_operator.Error.{Error, Result}
use schema_strimzi_operator.Api.Meta.{ObjectKey, ObjectMeta, Secret, Timestamp}
use schema_strimzi_operator.Api.SchemaTypes.{Schema}
use schema_strimzi_operator.Api.RegistryTypes.{SchemaRegistry}
use schema_strimzi_operator.Client.Types.{HttpClient, HttpRequest, HttpResponse}
use schema_strimzi_operator.World.{
  World, Event, Trace, got_schema, got_registry, got_secret, listed_schemas, listed_registries,
  updated_schema, updated_schema_status, updated_registry_status, sent, read_clock,
}
use schema_strimzi_operator.Controller.Keeps.{Holds}
use schema_strimzi_operator.Controller.Watches.{
  find_schemas_for_registry, find_schema_registries_for_secret,
}
use schema_strimzi_operator.Controller.SchemaController.Invariants
use schema_strimzi_operator.Controller.RegistryController.Invariants as RegistryInvariants
use schema_strimzi_operator.Controller.RegistryController
use schema_strimzi_operator.Controller.SchemaController
use schema_strimzi_operator.Manager.Setup.{
  setup_schema_reconciler, setup_schema_registry_reconciler,
}
use schema_strimzi_operator.Manager.Histories.{Step, reconciles, maps, Reach, nothing, later}

-- The world answers by the rule where schemas are concerned, and the rule allows anything else.
pub record IsAnswered (w : World) (Rule : Event → Trace → Type 0) : Type 0 where
  pub get : (key : ObjectKey) (t : Trace) → Rule (got_schema key (w.get_schema t key)) t
  pub update : (s : Schema) (t : Trace) → Rule (updated_schema s (w.update_schema t s)) t
  pub status :
      (s : Schema) (t : Trace) → Rule (updated_schema_status s (w.update_schema_status t s)) t
  pub registry :
      (key : ObjectKey) (r : Result SchemaRegistry) (t : Trace) → Rule (got_registry key r) t
  pub secret : (key : ObjectKey) (r : Result Secret) (t : Trace) → Rule (got_secret key r) t
  pub schemas :
      (namespace : String) (r : Result (List Schema)) (t : Trace)
      → Rule (listed_schemas namespace r) t
  pub registries :
      (namespace : String) (r : Result (List SchemaRegistry)) (t : Trace)
      → Rule (listed_registries namespace r) t
  pub registry_status :
      (sr : SchemaRegistry) (answer : Option Error) (t : Trace)
      → Rule (updated_registry_status sr answer) t
  pub request :
      (client : HttpClient) (req : HttpRequest) (r : Result HttpResponse) (t : Trace)
      → Rule (sent client req r) t
  pub clock : (time : Timestamp) (t : Trace) → Rule (read_clock time) t

module _ (w : World) {Rule : Event → Trace → Type 0} (a : IsAnswered w Rule) where
  reconcile_schema-Holds :
      (key : ObjectKey) (t : Trace)
      → Holds Rule t
      → Holds Rule (SchemaController.reconcile w key t).1
  reconcile_schema-Holds key t h =
      (Invariants.reconcile-Keeps w {I = Holds Rule}
          (record {
            quiet = record {
              registry = λ key r t h. (a.registry key r t, h);
              secret = λ key r t h. (a.secret key r t, h);
            };
            get = λ key t h. (a.get key t, h);
            clock = λ time t h. (a.clock time t, h);
            status = λ s t h. (a.status s t, h);
          })
          (record { at = λ client req r t allowed h. (a.request client req r t, h) })
          (λ s t h. (a.update s t, h)) key).at
        t h

  reconcile_registry-Holds :
      (key : ObjectKey) (t : Trace)
      → Holds Rule t
      → Holds Rule (RegistryController.reconcile w key t).1
  reconcile_registry-Holds key t h =
      (RegistryInvariants.reconcile-Keeps w {I = Holds Rule} {M = λ _. Unit {0}}
          (record {
            quiet = record {
              registry = λ key r t h. (a.registry key r t, h);
              secret = λ key r t h. (a.secret key r t, h);
            };
            clock = λ time t h. (a.clock time t, h);
            status = λ sr answer t h. (a.registry_status sr answer t, h);
          })
          (record { at = λ client req r t allowed h. (a.request client req r t, h) }) tt key).at
        t h

  find_schemas-Holds :
      (object : ObjectMeta) (t : Trace)
      → Holds Rule t
      → Holds Rule (find_schemas_for_registry w object t).1
  unfolding find_schemas_for_registry
  find_schemas-Holds object t h =
      let listed = a.schemas object.namespace (w.list_schemas t object.namespace) t in ground arith

  find_registries-Holds :
      (object : ObjectMeta) (t : Trace)
      → Holds Rule t
      → Holds Rule (find_schema_registries_for_secret w object t).1
  unfolding find_schema_registries_for_secret
  find_registries-Holds object t h =
      let listed = a.registries object.namespace (w.list_registries t object.namespace) t in
      ground arith

  Step-Holds : {t u : Trace} → Step w t u → Holds Rule t → Holds Rule u
  unfolding setup_schema_reconciler setup_schema_registry_reconciler
  Step-Holds {t} (reconciles key (inl e)) h = rw e (reconcile_schema-Holds key t h)
  Step-Holds {t} (reconciles key (inr (inl e))) h = rw e (reconcile_registry-Holds key t h)
  Step-Holds {t} (maps object (inl (inl e))) h = rw e (find_schemas-Holds object t h)
  Step-Holds {t} (maps object (inr (inl (inl e)))) h = rw e (find_registries-Holds object t h)
  Step-Holds (reconciles key (inr (inr x))) h = absurd x
  Step-Holds (maps object (inl (inr x))) h = absurd x
  Step-Holds (maps object (inr (inl (inr x)))) h = absurd x
  Step-Holds (maps object (inr (inr x))) h = absurd x

  pub Reach-Holds : {t : Trace} → Reach w t → Holds Rule t
  Reach-Holds nothing = tt
  Reach-Holds (later before step) = Step-Holds step (Reach-Holds before)
