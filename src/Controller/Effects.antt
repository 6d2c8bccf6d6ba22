-- ===== src/Controller/Effects.antt =====
-- The effects that the reconcilers make through the Kubernetes client, and what they return.
use schema_strimzi_operator.Prelude.{ℕ, ◌*◌, ◌^◌, String, Option, none, List, ◌∷◌}
use schema_strimzi_operator.Error.{Error, Result}
use schema_strimzi_operator.Api.Meta.{ObjectKey, ObjectMeta, Condition, Secret, Timestamp}
use schema_strimzi_operator.Api.SchemaTypes.{Schema}
use schema_strimzi_operator.Api.RegistryTypes.{SchemaRegistry}
use schema_strimzi_operator.World.{
  World, got_schema, got_registry, got_secret, listed_schemas, listed_registries, updated_schema,
  updated_schema_status, updated_registry_status, read_clock,
}
use schema_strimzi_operator.Exec.{Run, exec}

-- `ctrl.Result` (its `RequeueAfter`, in nanoseconds) with the error that is returned beside it.
pub record Outcome : Type 0 where
  pub requeue_after : ℕ
  pub error : Option Error

abbrev pub second : ℕ
second = 10 ^ 9

abbrev pub minute : ℕ
minute = 60 * second

abbrev pub done : Outcome
done = record { requeue_after = 0; error = none }

abbrev pub stop : Option Error → Outcome
stop e = record { requeue_after = 0; error = e }

-- `return ctrl.Result{RequeueAfter: d}, f(…)`
unfoldable pub requeue_with : ℕ → Run (Option Error) → Run Outcome
requeue_with d m t = let (e, t') = m t in (record { requeue_after = d; error = e }, t')

-- `client.ObjectKeyFromObject`
abbrev pub key_of : ObjectMeta → ObjectKey
key_of meta = record { name = meta.name; namespace = meta.namespace }

module _ (w : World) where
  unfoldable pub get_schema : ObjectKey → Run (Result Schema)
  get_schema key t = let r = w.get_schema t key in (r, got_schema key r ∷ t)

  unfoldable pub get_registry : ObjectKey → Run (Result SchemaRegistry)
  get_registry key t = let r = w.get_registry t key in (r, got_registry key r ∷ t)

  unfoldable pub get_secret : ObjectKey → Run (Result Secret)
  get_secret key t = let r = w.get_secret t key in (r, got_secret key r ∷ t)

  unfoldable pub list_schemas : String → Run (Result (List Schema))
  list_schemas namespace t =
      let r = w.list_schemas t namespace in (r, listed_schemas namespace r ∷ t)

  unfoldable pub list_registries : String → Run (Result (List SchemaRegistry))
  list_registries namespace t =
      let r = w.list_registries t namespace in (r, listed_registries namespace r ∷ t)

  unfoldable pub update_schema : Schema → Run (Option Error)
  update_schema s t = let e = w.update_schema t s in (e, updated_schema s e ∷ t)

  unfoldable pub update_schema_status : Schema → Run (Option Error)
  update_schema_status s t =
      let e = w.update_schema_status t s in (e, updated_schema_status s e ∷ t)

  unfoldable pub update_registry_status : SchemaRegistry → Run (Option Error)
  update_registry_status s t =
      let e = w.update_registry_status t s in (e, updated_registry_status s e ∷ t)

  unfoldable pub now : Run Timestamp
  now t = let s = w.now t in (s, read_clock s ∷ t)

  unfoldable pub set_status_condition : List Condition → Condition → Run (List Condition)
  set_status_condition cs c t = (w.set_status_condition t cs c, t)

-- The vocabulary of the reconcilers: to unfold one of them is to unfold all this.
unfoldable pub effects : Unit {0}
unfolding exec requeue_with get_schema get_registry get_secret list_schemas list_registries
    update_schema update_schema_status update_registry_status now set_status_condition
effects = tt
