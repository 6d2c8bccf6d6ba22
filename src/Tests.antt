-- ===== src/Tests.antt =====
-- Runs on concrete data, and the theorems at concrete inputs.
mod Sample
mod ClientTests
mod WebhookTests
mod HelperTests
mod ReconcileTests
mod OutcomeTests
mod RegistryTests
mod ManagerTests
mod ConvergenceTests
mod ConflictTests
mod SubjectTests
mod CopyTests
