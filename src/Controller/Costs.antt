-- ===== src/Controller/Costs.antt =====
-- How many requests and updates the calls of the registry and of the Kubernetes API make.
use schema_strimzi_operator.Prelude.{ℕ, ◌+◌, String, List, arith}
use schema_strimzi_operator.Api.Meta.{ObjectKey, Condition, Timestamp}
use schema_strimzi_operator.Api.SchemaTypes.{Schema}
use schema_strimzi_operator.Api.RegistryTypes.{SchemaRegistry}
use schema_strimzi_operator.Client.Types.{SchemaRegistryClient, RegisterSchemaRequest, HttpRequest}
use schema_strimzi_operator.Client.Calls.{
  send, health_check, get_latest_version_for_subject, register_schema, delete_subject,
  set_compatibility,
}
use schema_strimzi_operator.World.{
  World, Event, sent, updated_schema, updated_schema_status, updated_registry_status,
}
use schema_strimzi_operator.Controller.Effects.{
  get_schema, get_registry, update_schema, update_schema_status, update_registry_status, now,
  set_status_condition, requeue_with,
}
use schema_strimzi_operator.Exec.{Run, Body, perform, ◌>>=◌}
use schema_strimzi_operator.Error.{Error}
use schema_strimzi_operator.Prelude.{Option}
use schema_strimzi_operator.Controller.Spends.{
  Spends, Spends-bind_free, Spends-perform, spends_rules,
}

-- What a request costs, an update, and an update of a status. Reads cost nothing.
abbrev pub costs : ℕ → ℕ → ℕ → Event → ℕ
costs request update status (sent client req r) = request
costs request update status (updated_schema s e) = update
costs request update status (updated_schema_status s e) = status
costs request update status (updated_registry_status s e) = status
costs request update status _ = 0

module _ (w : World) (q u s : ℕ) where
  abbrev cost : Event → ℕ
  cost = costs q u s

  pub get_schema-Spends : (key : ObjectKey) → Spends cost 0 (get_schema w key)
  unfolding get_schema
  get_schema-Spends key = record { at = λ t. omega arith }

  pub get_registry-Spends : (key : ObjectKey) → Spends cost 0 (get_registry w key)
  unfolding get_registry
  get_registry-Spends key = record { at = λ t. omega arith }

  now-Spends : Spends cost 0 (now w)
  unfolding now
  now-Spends = record { at = λ t. omega arith }

  -- A reading of the clock is free.
  pub bind-now-Spends :
      {R B : Type 0} {n : ℕ} (k : Timestamp → Body R B)
      → ((time : Timestamp) → Spends cost n (k time))
      → Spends cost n (perform (now w) >>= k)
  bind-now-Spends k rest =
      Spends-bind_free (perform (now w)) k (Spends-perform (now w) now-Spends) rest

  pub condition-Spends :
      (cs : List Condition) (c : Condition) → Spends cost 0 (set_status_condition w cs c)
  unfolding set_status_condition
  condition-Spends cs c = record { at = λ t. omega arith }

  pub update-Spends : (x : Schema) → Spends cost u (update_schema w x)
  unfolding update_schema
  update-Spends x = record { at = λ t. omega arith }

  pub status-Spends : (x : Schema) → Spends cost s (update_schema_status w x)
  unfolding update_schema_status
  status-Spends x = record { at = λ t. omega arith }

  pub registry_status-Spends : (x : SchemaRegistry) → Spends cost s (update_registry_status w x)
  unfolding update_registry_status
  registry_status-Spends x = record { at = λ t. omega arith }

  pub requeue-Spends :
      {n : ℕ} {m : Run (Option Error)} (delay : ℕ)
      → Spends cost n m
      → Spends cost n (requeue_with delay m)
  unfolding requeue_with
  requeue-Spends delay spent = record { at = λ t. spent.at t }

  module _ (c : SchemaRegistryClient) where
    send-Spends : (req : HttpRequest) → Spends cost q (send w c req)
    unfolding send
    send-Spends req = record { at = λ t. omega arith }

    pub health_check-Spends : Spends cost q (health_check w c)
    unfolding health_check
    health_check-Spends = search (spends_rules, send-Spends) depth 16

    latest-Spends : (subject : String) → Spends cost q (get_latest_version_for_subject w c subject)
    unfolding get_latest_version_for_subject
    latest-Spends subject = search (spends_rules, send-Spends) depth 16

    pub register_schema-Spends :
        (subject : String) (request : RegisterSchemaRequest)
        → Spends cost (q + q) (register_schema w c subject request)
    unfolding register_schema
    register_schema-Spends subject request =
        search (spends_rules, send-Spends, latest-Spends) depth 20

    pub delete_subject-Spends : (subject : String) → Spends cost q (delete_subject w c subject)
    unfolding delete_subject
    delete_subject-Spends subject = search (spends_rules, send-Spends) depth 16

    pub set_compatibility-Spends :
        (subject level : String) → Spends cost q (set_compatibility w c subject level)
    unfolding set_compatibility
    set_compatibility-Spends subject level = search (spends_rules, send-Spends) depth 16
