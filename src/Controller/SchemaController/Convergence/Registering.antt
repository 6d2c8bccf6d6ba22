-- ===== src/Controller/SchemaController/Convergence/Registering.antt =====
-- What the registration makes of a schema that nobody else changes.
use schema_strimzi_operator.Prelude.{ℤ, String, some, none, ◌∷◌, ◌≡◌, refl, ap}
use mathlib.Core.Path.{subst}
use schema_strimzi_operator.Error.{ok}
use schema_strimzi_operator.Api.Meta.{ObjectKey, Secret}
use schema_strimzi_operator.Api.SchemaTypes.{Schema, SchemaStatus}
use schema_strimzi_operator.Api.RegistryTypes.{SchemaRegistry}
use schema_strimzi_operator.Client.Types.{Body, HttpClient, HttpRequest, HttpResponse}
use schema_strimzi_operator.World.{
  World, IsDocumented, Trace, got_schema, updated_schema_status, read_clock,
}
use schema_strimzi_operator.Exec.{finish}
use schema_strimzi_operator.Webhook.RegistryWebhook.{validate_create}
use schema_strimzi_operator.Controller.Effects.{done, key_of}
use schema_strimzi_operator.Controller.Quiet.{register_schema-Keeps}
use schema_strimzi_operator.Controller.Storage.{
  at_version, stored, IsServer, IsStored, quiet, on_sent, IsStored-got, IsStored-clock,
  IsStored-read, IsStored-accepts, stored-updated_status,
}
use schema_strimzi_operator.Controller.SchemaController.{
  registered_condition, registered_status, register_request, registry_key, apply_compatibility,
  register,
}
use schema_strimzi_operator.Controller.SchemaController.Parts.{
  build_client-Keeps, apply_compatibility-Keeps,
}
use schema_strimzi_operator.Controller.SchemaController.Success.{
  build_client-total, register_schema-total,
}
use schema_strimzi_operator.Controller.SchemaController.Convergence.Converged.{IsRegistered}
use schema_strimzi_operator.Controller.SchemaController.Convergence.Paths.{register-completes}

-- A registration of `held` ends without an error and with no further round, and the schema that is
-- stored after it is `x` with the status of a registration.
abbrev pub Completes : World → ObjectKey → Schema → ℤ → Schema → Schema → Trace → Type 0
Completes w key first id held x t =
    (status : SchemaStatus) × (u : Trace) × (finish (register w key held) t ≡ (done, u))
    × (stored key first u ≡ some (record x { status = status }))
    × IsRegistered id (record x { status = status })

module _ (w : World) (d : IsDocumented w) (key : ObjectKey) (version : Trace → String)
    (first : Schema) (server : IsServer w key version first) (sr : SchemaRegistry)
    (reference : ObjectKey) (registry_there : (t : Trace) → w.get_registry t reference ≡ ok sr)
    (admitted : validate_create w sr ≡ none)
    (readable : (t : Trace) (key : ObjectKey)
      → (secret : Secret) × (w.get_secret t key ≡ ok secret))
    (parses : (cert key : String) → w.key_pair_error cert key ≡ none) (id : ℤ)
    (encodes : (body : Body) → w.marshal_error body ≡ none)
    (built : (method url : String) → w.new_request_error method url ≡ none)
    (answers : (t : Trace) (client : HttpClient) (req : HttpRequest)
      → req.method ≡ "POST"
      → (resp : HttpResponse) × (w.do_request t client req ≡ ok resp)
        × (resp.status_code ≡ 200)
        × (w.decode_id resp.body ≡ ok id)) where
  abbrev Stored : Schema → String → Trace → Type 0
  Stored = IsStored w key version first server

  pub register-Completes :
      (x : Schema) (v : String) (t : Trace)
      → Stored x v t
      → key_of x.metadata ≡ key
      → registry_key x ≡ reference
      → Completes w key first id (at_version v x) x t
  unfolding registry_key
  register-Completes x v t h same refers =
      let held = at_version v x in
      let q = quiet w key version first server x v in
      let sends = on_sent w key version first server x v in
      let (c, t', client_built) =
        build_client-total w d held sr (λ t. rw refers (registry_there t)) admitted readable parses
          t in
      let h' = subst (λ r. Stored x v r.1) client_built ((build_client-Keeps w q held).at t h) in
      let (resp, t'', registered, same_id) =
        register_schema-total w id encodes built answers c held.spec.subject (register_request held)
          t' in
      let h'' =
        subst (λ r. Stored x v r.1) registered
          ((register_schema-Keeps w sends c held.spec.subject (register_request held) tt tt).at t'
            h') in
      let set = (apply_compatibility w c held t'').1 in
      let set_h = (apply_compatibility-Keeps w sends c held tt).at t'' h'' in
      let read = got_schema key (ok held) ∷ set in
      let read_h = IsStored-got w key version first server x v key (ok held) set set_h in
      let before = read_clock (w.now read) ∷ read in
      let before_h = IsStored-clock w key version first server x v (w.now read) read read_h in
      let condition = registered_condition w held resp in
      let cs = w.set_status_condition before held.status.conditions condition in
      let (ready, there, status, reason, same_message, generation) =
        d.find-set before held.status.conditions condition in
      let wrote = record held { status = registered_status w held resp (w.now read) cs } in
      (
        wrote.status,
        updated_schema_status wrote none ∷ before,
        register-completes w key held held t t' t'' c resp client_built registered
            (IsStored-read w key version first server x v set set_h)
            (IsStored-accepts w key version first server x v before wrote before_h same refl),
        stored-updated_status w key version first server x v before wrote before_h same,
        record { same_id = ap some same_id; observed = refl; ready = (ready, there, status) },
      )
