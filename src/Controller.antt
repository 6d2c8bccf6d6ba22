-- ===== src/Controller.antt =====
-- internal/controller: the reconcilers of the two custom resources.
pub mod Effects
pub mod Keeps
pub mod Spends
pub mod Costs
pub mod Quiet
pub mod Ends
pub mod Helpers
pub mod SchemaController
pub mod RegistryController
pub mod Watches
pub mod Storage
