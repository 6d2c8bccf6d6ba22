-- ===== src/Controller/SchemaController.antt =====
-- internal/controller/schema_controller.go: the reconciler of the resource Schema.
pub mod Parts
pub mod Invariants
pub mod Finalizer
pub mod Freshness
pub mod Phases
pub mod Registration
pub mod Readiness
pub mod Rounds
pub mod Release
pub mod Clients
pub mod Settled
pub mod Success
pub mod Removal
pub mod Conflicts
pub mod Bounds
pub mod Convergence
use schema_strimzi_operator.Prelude.{
  String, Option, none, some, List, ◌==◌, string_eq, ◌<>◌, not, map, decimal, if◌then◌else◌,
}
use schema_strimzi_operator.Error.{Error, text, wrap, Result, err}
use schema_strimzi_operator.Api.Meta.{
  ObjectKey, Condition, Timestamp, condition_true, condition_false, is_zero,
}
use schema_strimzi_operator.Api.SchemaTypes.{Schema, SchemaStatus}
use schema_strimzi_operator.Api.SchemaTypes
use schema_strimzi_operator.Client.Types.{
  SchemaReference, RegisterSchemaRequest, SchemaRegistryClient, SchemaResponse,
}
use schema_strimzi_operator.Client.Requests.{new_client}
use schema_strimzi_operator.Client.Calls.{register_schema, delete_subject, set_compatibility}
use schema_strimzi_operator.World.{World}
use schema_strimzi_operator.Exec.{
  Run, Body, finish, give, perform, check, check_nil, pure, ◌>>=◌, ◌>>◌,
}
use schema_strimzi_operator.Controller.Effects.{
  effects, Outcome, minute, done, stop, requeue_with, key_of, get_schema, get_registry,
  update_schema, update_schema_status, now, set_status_condition,
}
use schema_strimzi_operator.Controller.Helpers.{load_auth_config, request_timeout}

abbrev pub schema_finalizer : String
schema_finalizer = "registry.strimzi.io/schema-finalizer"

abbrev convert_reference : SchemaTypes.SchemaReference → SchemaReference
convert_reference ref = record { name = ref.name; subject = ref.subject; version = ref.version }

unfoldable pub convert_references : List SchemaTypes.SchemaReference → List SchemaReference
convert_references refs = map convert_reference refs

-- The request that `Reconcile` builds from the spec.
unfoldable pub register_request : Schema → RegisterSchemaRequest
unfolding convert_references
register_request s = record {
  schema = s.spec.schema;
  schema_type = s.spec.schema_type;
  references = convert_references s.spec.references;
}

-- The key of the registry that the schema refers to: its own namespace unless another is given.
unfoldable pub registry_key : Schema → ObjectKey
registry_key s = record {
  name = s.spec.registry_ref.name;
  namespace =
      if s.spec.registry_ref.namespace == ""
      then s.metadata.namespace
      else s.spec.registry_ref.namespace;
}

abbrev pub with_finalizers : Schema → List String → Schema
with_finalizers s fs = record s { metadata = record s.metadata { finalizers = fs } }

abbrev pub with_conditions : Schema → List Condition → Schema
with_conditions s cs = record s { status = record s.status { conditions = cs } }

module _ (w : World) where
  unfoldable pub build_client : Schema → Run (Result SchemaRegistryClient)
  unfolding effects registry_key
  build_client s = finish do
    r ← perform (get_registry w (registry_key s))
    registry ← check r (λ e.
        pure (err (wrap ("failed to get SchemaRegistry " <> w.quote s.spec.registry_ref.name) e)))
    a ← perform (load_auth_config w registry)
    auth ← check a (λ e. pure (err e))
    give (
        new_client registry.spec.url auth (request_timeout registry.spec.timeout)
          registry.spec.insecure_skip_verify)

  -- An error of `buildClient` is logged and swallowed.
  unfoldable pub delete_from_registry : Schema → Run (Option Error)
  unfolding effects
  delete_from_registry s = finish do
    r ← perform (build_client s)
    c ← check r (λ e. pure none)
    e ← perform (delete_subject w c s.spec.subject)
    give e

  abbrev pub failed_condition : Schema → String → String → Condition
  failed_condition s reason message = record {
    type = "Ready";
    status = condition_false;
    reason = reason;
    message = message;
    observed_generation = s.metadata.generation;
    last_transition_time = 0;
  }

  -- The status update of the schema that has been fetched again.
  unfoldable pub write_failed : String → String → Schema → Body (Option Error) (Option Error)
  unfolding effects
  write_failed reason message s = do
    cs ← perform (set_status_condition w s.status.conditions (failed_condition s reason message))
    e ← perform (update_schema_status w (with_conditions s cs))
    give e

  unfoldable pub set_condition_failed : Schema → String → String → Run (Option Error)
  unfolding effects
  set_condition_failed stale reason message = finish do
    r ← perform (get_schema w (key_of stale.metadata))
    s ← check r (λ e. pure (w.ignore_not_found e))
    write_failed reason message s

  -- The update that gives the finalizer up.
  unfoldable pub release : Schema → Body Outcome Outcome
  unfolding effects
  release s = do
    refused ← perform (
        update_schema w
          (with_finalizers s (w.remove_finalizer s.metadata.finalizers schema_finalizer)))
    check_nil refused (λ e. pure (stop (some e)))
    give done

  -- The deletion path.
  unfoldable pub finalize : Schema → Body Outcome Outcome
  unfolding effects
  finalize s =
      if w.contains_finalizer s.metadata.finalizers schema_finalizer
      then (do
        failed ← perform (delete_from_registry s)
        check_nil failed (λ e. pure (stop (some e)))
        release s)
      else give done

  -- After the update that adds the finalizer.
  unfoldable pub refetch : ObjectKey → Option Error → Body Outcome Schema
  unfolding effects
  refetch key refused = do
    check_nil refused (λ e. pure (stop (some e)))
    r ← perform (get_schema w key)
    check r (λ e. pure (stop (w.ignore_not_found e)))

  -- The finalizer is added if it is missing, and the schema is fetched again.
  unfoldable pub ensure_finalizer : ObjectKey → Schema → Body Outcome Schema
  unfolding effects
  ensure_finalizer key s =
      if not (w.contains_finalizer s.metadata.finalizers schema_finalizer)
      then (do
        refused ← perform (
            update_schema w
              (with_finalizers s (w.add_finalizer s.metadata.finalizers schema_finalizer)))
        refetch key refused)
      else perform (pure s)

  -- An error of `SetCompatibility` is logged and nothing more.
  unfoldable pub apply_compatibility : SchemaRegistryClient → Schema → Run (Unit {0})
  unfolding effects
  apply_compatibility c s =
      if not (s.spec.compatibility_level == "")
      then finish (do
        e ← perform (set_compatibility w c s.spec.subject s.spec.compatibility_level)
        give tt)
      else pure tt

  abbrev pub registered_condition : Schema → SchemaResponse → Condition
  registered_condition s resp = record {
    type = "Ready";
    status = condition_true;
    reason = "Registered";
    message =
        "Schema registered with ID " <> decimal resp.id <> ", version " <> decimal resp.version;
    observed_generation = s.metadata.generation;
    last_transition_time = 0;
  }

  abbrev pub registered_status : Schema → SchemaResponse → Timestamp → List Condition → SchemaStatus
  registered_status s resp time cs = record {
    schema_id = some resp.id;
    version = some resp.version;
    registered_at = some time;
    observed_generation = s.metadata.generation;
    conditions = cs;
  }

  -- The status update of the schema that has been fetched again.
  unfoldable pub write_registered : SchemaResponse → Schema → Body Outcome Outcome
  unfolding effects
  write_registered resp s = do
    time ← perform (now w)
    cs ← perform (set_status_condition w s.status.conditions (registered_condition s resp))
    refused ←
        perform (update_schema_status w (record s { status = registered_status s resp time cs }))
    check_nil refused (λ e. pure (stop (some e)))
    give done

  -- The re-fetch and the status update at the end of a successful reconciliation.
  unfoldable pub record_registered : ObjectKey → SchemaResponse → Body Outcome Outcome
  unfolding effects
  record_registered key resp = do
    r ← perform (get_schema w key)
    s ← check r (λ e. pure (stop (w.ignore_not_found e)))
    write_registered resp s

  -- From the client on: registration, compatibility, status.
  unfoldable pub register : ObjectKey → Schema → Body Outcome Outcome
  unfolding effects
  register key s = do
    b ← perform (build_client s)
    c ← check b (λ e. requeue_with minute (set_condition_failed s "ClientBuildFailed" (text e)))
    r ← perform (register_schema w c s.spec.subject (register_request s))
    resp ← check r (λ e. requeue_with minute (set_condition_failed s "RegistrationFailed" (text e)))
    perform (apply_compatibility c s)
    record_registered key resp

  unfoldable pub reconcile : ObjectKey → Run Outcome
  unfolding effects
  reconcile key = finish do
    r ← perform (get_schema w key)
    s ← check r (λ e. pure (stop (w.ignore_not_found e)))
    if not (is_zero s.metadata.deletion_timestamp)
        then finalize s
        else do fresh ← ensure_finalizer key s; register key fresh

  -- All of the reconciler, for a run on concrete data.
  unfoldable pub schema_controller : Unit {0}
  unfolding effects build_client delete_from_registry write_failed set_condition_failed release
      finalize refetch ensure_finalizer apply_compatibility write_registered record_registered
      register reconcile
  schema_controller = tt
