-- ===== src/Webhook.antt =====
-- internal/webhook/v1alpha1: the validating admission webhooks.
pub mod SchemaWebhook
pub mod RegistryWebhook
pub mod Aggregates
pub mod RegistryRules
pub mod SchemaRules
pub mod Violations
pub mod RegistryViolations
