-- ===== src/Manager/Setup.antt =====
-- `SetupWithManager` of both reconcilers, `SetupSchemaWebhookWithManager` and
-- `SetupSchemaRegistryWebhookWithManager`: what they hand to controller-runtime.
use schema_strimzi_operator.Prelude.{String, Option, List, [], ◌∷◌}
use schema_strimzi_operator.Error.{Error}
use schema_strimzi_operator.Api.Meta.{ObjectKey, ObjectMeta}
use schema_strimzi_operator.Api.SchemaTypes.{Schema}
use schema_strimzi_operator.Api.RegistryTypes.{SchemaRegistry}
use schema_strimzi_operator.World.{World}
use schema_strimzi_operator.Exec.{Run}
use schema_strimzi_operator.Controller.Effects.{Outcome}
use schema_strimzi_operator.Controller.SchemaController
use schema_strimzi_operator.Controller.RegistryController
use schema_strimzi_operator.Controller.Watches.{
  find_schemas_for_registry, find_schema_registries_for_secret,
}
use schema_strimzi_operator.Webhook.SchemaWebhook
use schema_strimzi_operator.Webhook.RegistryWebhook

-- The kinds of objects that are watched.
pub data Kind : Type 0 where
  schema_kind schema_registry_kind secret_kind : Kind

-- `EnqueueRequestsFromMapFunc`: the keys to reconcile because of a changed object.
abbrev pub MapFunc : Type 0
MapFunc = ObjectMeta → Run (List ObjectKey)

-- What the builder of a controller is given.
pub record ControllerSetup : Type 0 where
  pub named : String
  pub for : Kind
  pub watches : List (Kind × MapFunc)
  pub reconcile : ObjectKey → Run Outcome

-- What the builder of a webhook is given: the validator.
pub record Validator (A : Type 0) : Type 0 where
  pub validate_create : A → Option Error
  pub validate_update : A → A → Option Error
  pub validate_delete : A → Option Error

module _ (w : World) where
  unfoldable pub setup_schema_reconciler : ControllerSetup
  setup_schema_reconciler = record {
    named = "schema";
    for = schema_kind;
    watches = (schema_registry_kind, find_schemas_for_registry w) ∷ [];
    reconcile = SchemaController.reconcile w;
  }

  unfoldable pub setup_schema_registry_reconciler : ControllerSetup
  setup_schema_registry_reconciler = record {
    named = "schemaregistry";
    for = schema_registry_kind;
    watches = (secret_kind, find_schema_registries_for_secret w) ∷ [];
    reconcile = RegistryController.reconcile w;
  }

  unfoldable pub setup_schema_webhook : Validator Schema
  setup_schema_webhook = record {
    validate_create = SchemaWebhook.validate_create w;
    validate_update = SchemaWebhook.validate_update w;
    validate_delete = SchemaWebhook.validate_delete w;
  }

  unfoldable pub setup_schema_registry_webhook : Validator SchemaRegistry
  setup_schema_registry_webhook = record {
    validate_create = RegistryWebhook.validate_create w;
    validate_update = RegistryWebhook.validate_update w;
    validate_delete = RegistryWebhook.validate_delete w;
  }
