-- ===== src/Api.antt =====
-- The custom resources of api/v1alpha1 and the parts of the Kubernetes types that they use.
pub mod Meta
pub mod SchemaTypes
pub mod RegistryTypes
pub mod DeepCopy
