-- ===== src/Manager/Histories.antt =====
-- The histories that the operator as a whole can reach, one reconciliation after the other.
use schema_strimzi_operator.Prelude.{
  Option, List, [], ◌∷◌, ◌≡◌, ◌≢◌, inl, inr, refl, arith, eq_iff, String, Any,
}
use schema_strimzi_operator.Error.{Error, Result}
use schema_strimzi_operator.Api.RegistryTypes.{SchemaRegistry}
use schema_strimzi_operator.Client.Types.{HttpClient, HttpRequest, HttpResponse}
use schema_strimzi_operator.Api.Meta.{ObjectKey, ObjectMeta, Secret, Timestamp}
use schema_strimzi_operator.World.{
  World, IsDocumented, Event, Trace, got_registry, got_secret, updated_registry_status, read_clock,
  sent,
}
use schema_strimzi_operator.Controller.Keeps.{Keeps, Holds}
use schema_strimzi_operator.Controller.Watches.{
  find_schemas_for_registry, find_schema_registries_for_secret,
}
use schema_strimzi_operator.Controller.SchemaController.Finalizer.{
  ReleaseRule, reconcile-ReleaseRule,
}
use schema_strimzi_operator.Controller.SchemaController.Registration.{
  RegisterRule, reconcile-RegisterRule,
}
use schema_strimzi_operator.Controller.SchemaController.Freshness.{FreshRule, reconcile-FreshRule}
use schema_strimzi_operator.Controller.SchemaController.Readiness.{ReadyRule, reconcile-ReadyRule}
use schema_strimzi_operator.Controller.SchemaController.Invariants
use schema_strimzi_operator.Controller.RegistryController.Status.{StatusRule, reconcile-StatusRule}
use schema_strimzi_operator.Controller.RegistryController.Invariants as RegistryInvariants
use schema_strimzi_operator.Controller.RegistryController
use schema_strimzi_operator.Controller.SchemaController
use schema_strimzi_operator.Manager.Setup.{
  ControllerSetup, setup_schema_reconciler, setup_schema_registry_reconciler,
}

not_both : (method : String) → method ≡ "GET" → method ≢ "POST"
not_both method get post = ground (arith, eq_iff "GET" "POST")

module _ (w : World) where
  abbrev pub controllers : List ControllerSetup
  controllers = setup_schema_reconciler w ∷ setup_schema_registry_reconciler w ∷ []

  -- A controller reconciles a key, or one of its watches maps an object to keys.
  pub data Step (t u : Trace) : Type 0 where
    reconciles : (key : ObjectKey) → Any (λ c. u ≡ (c.reconcile key t).1) controllers → Step t u
    maps :
        (object : ObjectMeta)
        → Any (λ c. Any (λ watch. u ≡ (watch.1 object t).1) c.watches) controllers
        → Step t u

  -- From the empty history, by any number of steps.
  pub data Reach : Trace → Type 0 where
    nothing : Reach []
    later : {t u : Trace} → Reach t → Step t u → Reach u

  -- All the rules at once.
  pub record IsLawful (t : Trace) : Type 0 where
    pub release : Holds (ReleaseRule w) t
    pub register : Holds (RegisterRule w) t
    pub fresh : Holds FreshRule t
    pub ready : Holds (ReadyRule w) t
    pub status : Holds StatusRule t

  module _ (d : IsDocumented w) where
    reconcile_schema-IsLawful :
        (key : ObjectKey) (t : Trace) → IsLawful t → IsLawful (SchemaController.reconcile w key t).1
    reconcile_schema-IsLawful key t h = record {
      release = reconcile-ReleaseRule w d key t h.release;
      register = reconcile-RegisterRule w d key t h.register;
      fresh = reconcile-FreshRule w key t h.fresh;
      ready = reconcile-ReadyRule w d key t h.ready;
      status =
          (Invariants.reconcile-Keeps w {I = Holds StatusRule}
              (record {
                quiet = record { registry = λ key r t h. (tt, h); secret = λ key r t h. (tt, h) };
                get = λ key t h. (tt, h);
                clock = λ time t h. (tt, h);
                status = λ s t h. (tt, h);
              })
              (record { at = λ client req r t allowed h. (tt, h) }) (λ s t h. (tt, h)) key).at
            t h.status;
    }

    -- A rule that allows whatever the reconciler of SchemaRegistry does but its requests.
    indifferent :
        {Rule : Event → Trace → Type 0}
        → ((key : ObjectKey) (r : Result SchemaRegistry) (t : Trace) → Rule (got_registry key r) t)
        → ((key : ObjectKey) (r : Result Secret) (t : Trace) → Rule (got_secret key r) t)
        → ((time : Timestamp) (t : Trace) → Rule (read_clock time) t)
        → ((sr : SchemaRegistry) (answer : Option Error) (t : Trace)
            → Rule (updated_registry_status sr answer) t)
        → ((client : HttpClient) (req : HttpRequest) (r : Result HttpResponse) (t : Trace)
            → req.method ≡ "GET"
            → Rule (sent client req r) t)
        → (key : ObjectKey) → Keeps (Holds Rule) (RegistryController.reconcile w key)
    indifferent on_registry on_secret on_clock on_status on_request key =
        RegistryInvariants.reconcile-Keeps w {M = λ method. method ≡ "GET"}
          (record {
            quiet = record {
              registry = λ key r t h. (on_registry key r t, h);
              secret = λ key r t h. (on_secret key r t, h);
            };
            clock = λ time t h. (on_clock time t, h);
            status = λ sr answer t h. (on_status sr answer t, h);
          })
          (record { at = λ client req r t gets h. (on_request client req r t gets, h) }) refl key

    reconcile_registry-IsLawful :
        (key : ObjectKey) (t : Trace)
        → IsLawful t
        → IsLawful (RegistryController.reconcile w key t).1
    reconcile_registry-IsLawful key t h = record {
      release =
          (indifferent {Rule = ReleaseRule w} (λ k r t. tt) (λ k r t. tt) (λ time t. tt)
              (λ sr e t. tt) (λ c req r t gets. tt) key).at
            t h.release;
      register =
          (indifferent {Rule = RegisterRule w} (λ k r t. tt) (λ k r t. tt) (λ time t. tt)
              (λ sr e t. tt) (λ c req r t gets posts. absurd (not_both req.method gets posts))
              key).at
            t h.register;
      fresh =
          (indifferent {Rule = FreshRule} (λ k r t. tt) (λ k r t. tt) (λ time t. tt) (λ sr e t. tt)
              (λ c req r t gets. tt) key).at
            t h.fresh;
      ready =
          (indifferent {Rule = ReadyRule w} (λ k r t. tt) (λ k r t. tt) (λ time t. tt)
              (λ sr e t. tt) (λ c req r t gets. tt) key).at
            t h.ready;
      status = reconcile-StatusRule w d key t h.status;
    }

    find_schemas-IsLawful :
        (object : ObjectMeta) (t : Trace)
        → IsLawful t
        → IsLawful (find_schemas_for_registry w object t).1
    unfolding find_schemas_for_registry
    find_schemas-IsLawful object t h = ground arith

    find_registries-IsLawful :
        (object : ObjectMeta) (t : Trace)
        → IsLawful t
        → IsLawful (find_schema_registries_for_secret w object t).1
    unfolding find_schema_registries_for_secret
    find_registries-IsLawful object t h = ground arith

    Step-IsLawful : {t u : Trace} → Step t u → IsLawful t → IsLawful u
    unfolding setup_schema_reconciler setup_schema_registry_reconciler
    Step-IsLawful {t} (reconciles key (inl e)) h = rw e (reconcile_schema-IsLawful key t h)
    Step-IsLawful {t} (reconciles key (inr (inl e))) h = rw e (reconcile_registry-IsLawful key t h)
    Step-IsLawful {t} (maps object (inl (inl e))) h = rw e (find_schemas-IsLawful object t h)
    Step-IsLawful {t} (maps object (inr (inl (inl e)))) h =
        rw e (find_registries-IsLawful object t h)
    Step-IsLawful (reconciles key (inr (inr x))) h = absurd x
    Step-IsLawful (maps object (inl (inr x))) h = absurd x
    Step-IsLawful (maps object (inr (inl (inr x)))) h = absurd x
    Step-IsLawful (maps object (inr (inr x))) h = absurd x

    -- Every history that the operator can reach is lawful: whatever keys its two controllers
    -- reconcile and whatever changed objects their watches map to keys, in whatever order, one after
    -- the other, all the rules hold: those for giving up the finalizer, for registrations, for
    -- freshness and readiness of schemas, and for the status of registries.
    pub Reach-IsLawful : {t : Trace} → Reach t → IsLawful t
    Reach-IsLawful nothing = record {
      release = tt;
      register = tt;
      fresh = tt;
      ready = tt;
      status = tt;
    }
    Reach-IsLawful (later before step) = Step-IsLawful step (Reach-IsLawful before)
