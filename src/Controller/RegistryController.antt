-- ===== src/Controller/RegistryController.antt =====
-- internal/controller/schemaregistry_controller.go: the reconciler of SchemaRegistry.
pub mod Invariants
pub mod Bounds
pub mod Status
pub mod Rounds
pub mod Stops
use schema_strimzi_operator.Prelude.{◌*◌, String, Option, none, some, List}
use schema_strimzi_operator.Error.{Error, text}
use schema_strimzi_operator.Api.Meta.{
  ObjectKey, Condition, Timestamp, condition_true, condition_false,
}
use schema_strimzi_operator.Api.RegistryTypes.{SchemaRegistry}
use schema_strimzi_operator.Client.Requests.{new_client}
use schema_strimzi_operator.Client.Calls.{health_check}
use schema_strimzi_operator.World.{World}
use schema_strimzi_operator.Exec.{
  Run, Body, finish, give, perform, check, check_nil, pure, ◌>>=◌, ◌>>◌,
}
use schema_strimzi_operator.Controller.Effects.{
  effects, Outcome, minute, stop, requeue_with, key_of, get_registry, update_registry_status, now,
  set_status_condition,
}
use schema_strimzi_operator.Controller.Helpers.{load_auth_config, request_timeout}

abbrev pub ready : SchemaRegistry → String → String → String → Condition
ready sr status reason message = record {
  type = "Ready";
  status = status;
  reason = reason;
  message = message;
  observed_generation = sr.metadata.generation;
  last_transition_time = 0;
}

-- The condition and the connection status that a health check leads to.
abbrev pub health_condition : SchemaRegistry → Option Error → Condition
health_condition sr none =
    ready sr condition_true "Connected" "Successfully connected to Schema Registry"
health_condition sr (some e) = ready sr condition_false "ConnectionFailed" (text e)

abbrev pub connection_status : Option Error → String
connection_status none = "Connected"
connection_status (some e) = "Unreachable"

abbrev pub with_health : SchemaRegistry → Timestamp → List Condition → Option Error → SchemaRegistry
with_health sr time cs health = record sr {
  status = record {
    connection_status = connection_status health;
    last_checked = some time;
    observed_generation = sr.metadata.generation;
    conditions = cs;
  };
}

abbrev pub with_failure : SchemaRegistry → List Condition → SchemaRegistry
with_failure sr cs = record sr {
  status = record sr.status { connection_status = "Unreachable"; conditions = cs };
}

module _ (w : World) where
  unfoldable pub set_condition_failed : SchemaRegistry → String → String → Run (Option Error)
  unfolding effects
  set_condition_failed stale reason message = finish do
    r ← perform (get_registry w (key_of stale.metadata))
    sr ← check r (λ e. pure (w.ignore_not_found e))
    cs ←
        perform
          (set_status_condition w sr.status.conditions (ready sr condition_false reason message))
    e ← perform (update_registry_status w (with_failure sr cs))
    give e

  -- From the health check's result on: re-fetch, status update, the next round in five minutes.
  unfoldable pub record_health : ObjectKey → Option Error → Body Outcome Outcome
  unfolding effects
  record_health key health = do
    r ← perform (get_registry w key)
    sr ← check r (λ e. pure (stop (w.ignore_not_found e)))
    time ← perform (now w)
    cs ← perform (set_status_condition w sr.status.conditions (health_condition sr health))
    refused ← perform (update_registry_status w (with_health sr time cs health))
    check_nil refused (λ e. pure (stop (some e)))
    give (record { requeue_after = 5 * minute; error = none })

  -- From the credentials on.
  unfoldable pub check_registry : ObjectKey → SchemaRegistry → Body Outcome Outcome
  unfolding effects
  check_registry key sr = do
    a ← perform (load_auth_config w sr)
    auth ← check a (λ e. requeue_with 0 (set_condition_failed sr "AuthLoadFailed" (text e)))
    c ←
        check
          (new_client sr.spec.url auth (request_timeout sr.spec.timeout)
            sr.spec.insecure_skip_verify)
          (λ e. requeue_with 0 (set_condition_failed sr "ClientCreateFailed" (text e)))
    health ← perform (health_check w c)
    record_health key health

  unfoldable pub reconcile : ObjectKey → Run Outcome
  unfolding effects check_registry record_health
  reconcile key = finish do
    r ← perform (get_registry w key)
    sr ← check r (λ e. pure (stop (w.ignore_not_found e)))
    check_registry key sr
