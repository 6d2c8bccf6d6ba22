-- ===== src/Controller/SchemaController/Parts.antt =====
-- The parts of the reconciler that only read registries and secrets, and talk to the registry.
use schema_strimzi_operator.Prelude.{String, ◌∷◌, map}
use schema_strimzi_operator.Error.{Result}
use schema_strimzi_operator.Api.Meta.{ObjectKey, Secret}
use schema_strimzi_operator.Api.SchemaTypes.{Schema}
use schema_strimzi_operator.Api.RegistryTypes.{SchemaRegistry}
use schema_strimzi_operator.Client.Types.{SchemaRegistryClient, RegisterSchemaRequest}
use schema_strimzi_operator.World.{World, Trace, got_registry, got_secret}
use schema_strimzi_operator.Controller.Effects.{get_registry}
use schema_strimzi_operator.Controller.Keeps.{Keeps, keeps_rules}
use schema_strimzi_operator.Controller.Quiet.{
  KeepsSent, delete_subject-Keeps, set_compatibility-Keeps,
}
use schema_strimzi_operator.Controller.Helpers.{load_auth_config}
use schema_strimzi_operator.Controller.Helpers.Reads.{load_auth_config-Keeps}
use schema_strimzi_operator.Controller.SchemaController.{
  build_client, delete_from_registry, apply_compatibility,
}

-- What a registration has to send of a schema.
abbrev pub registration_of : Schema → RegisterSchemaRequest
registration_of s = record {
  schema = s.spec.schema;
  schema_type = s.spec.schema_type;
  references =
      map (λ ref. record { name = ref.name; subject = ref.subject; version = ref.version })
        s.spec.references;
}

-- The property is kept by every read of a registry or a secret.
pub record IsQuiet (I : Trace → Type 0) : Type 0 where
  pub registry :
      (key : ObjectKey) (r : Result SchemaRegistry) (t : Trace) → I t → I (got_registry key r ∷ t)
  pub secret : (key : ObjectKey) (r : Result Secret) (t : Trace) → I t → I (got_secret key r ∷ t)

module _ (w : World) {I : Trace → Type 0} (q : IsQuiet I) where
  get_registry-Keeps : (key : ObjectKey) → Keeps I (get_registry w key)
  unfolding get_registry
  get_registry-Keeps key = record { at = λ t h. q.registry key _ t h }

  pub auth-Keeps : (sr : SchemaRegistry) → Keeps I (load_auth_config w sr)
  auth-Keeps sr =
      load_auth_config-Keeps w {K = λ _. Unit {0}}
        (record { at = λ key r t _ h. q.secret key r t h }) sr λ name refers. tt

  pub build_client-Keeps : (s : Schema) → Keeps I (build_client w s)
  unfolding build_client
  build_client-Keeps s = search (keeps_rules, get_registry-Keeps, auth-Keeps) depth 16

module _ (w : World) {I : Trace → Type 0} {M : String → Type 0} (q : IsQuiet I)
    (on_sent : KeepsSent M I) where
  pub delete_from_registry-Keeps : (s : Schema) → M "DELETE" → Keeps I (delete_from_registry w s)
  unfolding delete_from_registry
  delete_from_registry-Keeps s allowed =
      search (keeps_rules, build_client-Keeps w q, delete_subject-Keeps w on_sent) depth 16

module _ (w : World) {I : Trace → Type 0} {M : String → Type 0} (on_sent : KeepsSent M I) where
  pub apply_compatibility-Keeps :
      (c : SchemaRegistryClient) (s : Schema) → M "PUT" → Keeps I (apply_compatibility w c s)
  unfolding apply_compatibility
  apply_compatibility-Keeps c s allowed =
      search (keeps_rules, set_compatibility-Keeps w on_sent) depth 16
