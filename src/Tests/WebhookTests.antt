-- ===== src/Tests/WebhookTests.antt =====
-- The theorems about the webhooks at concrete objects.
use schema_strimzi_operator.Prelude.{
  pos, [], ◌∷◌, Any, decimal_nat, some, none, ◌≡◌, ◌≢◌, ◌↔◌, refl,
}
use schema_strimzi_operator.Api.SchemaTypes.{Schema}
use schema_strimzi_operator.Webhook.SchemaWebhook.{
  spec_errors, validate_create, validate_update, validate_delete,
}
use schema_strimzi_operator.Webhook.RegistryWebhook
use schema_strimzi_operator.Webhook.RegistryRules.{IsValidRegistry, registry_webhook-eq-nil_iff}
use schema_strimzi_operator.Webhook.SchemaRules.{
  IsValidSpec, created, updated, schema_webhook-eq-nil_iff, Admitted-immutable,
}
use schema_strimzi_operator.Api.RegistryTypes.{SchemaRegistry}
use schema_strimzi_operator.Webhook.RegistryWebhook.{registry_errors}
use schema_strimzi_operator.Webhook.RegistryViolations.{IsRegistryFault, registry_errors_iff}
use schema_strimzi_operator.Webhook.Violations.{IsFault, spec_errors_iff}
use schema_strimzi_operator.World.{FieldError, required}
use schema_strimzi_operator.Tests.Sample.{schema, registry, basic, world, world_with-IsDocumented}

-- The schema with another text.
abbrev edited : Schema
edited = record schema { spec = record schema.spec { schema = "[]" } }

-- The schema with another type.
abbrev retyped : Schema
retyped = record schema { spec = record schema.spec { schema_type = "JSON" } }

edited-accepted : validate_update world schema edited ≡ none
unfolding validate_update
edited-accepted = refl

retyped-refused : validate_update world schema retyped ≢ none
unfolding validate_update
retyped-refused e = cc e

schema-accepted : validate_create world schema ≡ none
unfolding validate_create
schema-accepted = refl

registry_webhook-eq-nil_iff_example :
    ((RegistryWebhook.validate_create world registry ≡ none) ↔ IsValidRegistry registry.spec)
    × ((RegistryWebhook.validate_update world registry registry ≡ none)
        ↔ IsValidRegistry registry.spec)
    × (RegistryWebhook.validate_delete world registry ≡ none)
registry_webhook-eq-nil_iff_example =
    registry_webhook-eq-nil_iff world (world_with-IsDocumented schema 200) registry registry

schema_webhook-eq-nil_iff_example :
    ((validate_create world retyped ≡ none) ↔ IsValidSpec world retyped.spec)
    × ((validate_update world schema retyped ≡ none) ↔ (
        (schema.spec.subject ≡ retyped.spec.subject)
        × ((schema.spec.schema_type ≡ retyped.spec.schema_type) × IsValidSpec world retyped.spec)))
    × (validate_delete world schema ≡ none)
schema_webhook-eq-nil_iff_example =
    schema_webhook-eq-nil_iff world (world_with-IsDocumented schema 200) schema retyped

Admitted-immutable_example :
    (edited.spec.subject ≡ schema.spec.subject)
    × (edited.spec.schema_type ≡ schema.spec.schema_type)
    × IsValidSpec world edited.spec
Admitted-immutable_example =
    Admitted-immutable {w = world} {first = schema} {last = edited}
      (world_with-IsDocumented schema 200)
      (updated edited (created schema-accepted) edited-accepted)

-- The sample has a reference with no name at index 1.
abbrev nameless : Schema
nameless = record schema {
  spec = record schema.spec {
    references =
        record { name = "id"; subject = "ids"; version = pos 1 }
        ∷ record { name = ""; subject = "ids"; version = pos 1 }
        ∷ [];
  };
}

abbrev nameless_error : FieldError
nameless_error = required "spec.references[1].name" "reference name must not be empty"

nameless-errors : spec_errors world nameless.spec ≡ nameless_error ∷ []
unfolding spec_errors decimal_nat
nameless-errors = refl

spec_errors_iff_example :
    Any (λ x. x ≡ nameless_error) (spec_errors world nameless.spec)
    ↔ IsFault world nameless.spec nameless_error
spec_errors_iff_example = spec_errors_iff nameless_error world nameless.spec

-- The registry declares BASIC and has no section for it.
abbrev undeclared : SchemaRegistry
undeclared = record registry {
  spec = record registry.spec { auth = some (record basic { basic_auth = none }) };
}

abbrev undeclared_error : FieldError
undeclared_error = required "spec.auth.basicAuth" "basicAuth must be set when auth type is BASIC"

undeclared-errors : registry_errors undeclared.spec ≡ undeclared_error ∷ []
unfolding registry_errors
undeclared-errors = refl

registry_errors_iff_example :
    Any (λ x. x ≡ undeclared_error) (registry_errors undeclared.spec)
    ↔ IsRegistryFault undeclared_error undeclared.spec
registry_errors_iff_example = registry_errors_iff undeclared_error undeclared.spec
