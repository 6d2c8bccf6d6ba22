-- ===== src/Controller/SchemaController/Convergence.antt =====
-- What rounds of reconciliation make of a schema that nobody else changes.
pub mod Converged
pub mod Paths
pub mod Registering
use schema_strimzi_operator.Prelude.{
  ℕ, zero, suc, ℤ, ◌*◌, String, true, false, some, none, [], ◌∷◌, ◌≡◌, refl, ap, sym, ◌∙◌, inl, inr,
  Bool-cases,
}
use mathlib.Core.Path.{subst}
use schema_strimzi_operator.Error.{ok}
use schema_strimzi_operator.Api.Meta.{
  ObjectKey, Condition, Secret, condition_true, find_condition, is_zero,
}
use schema_strimzi_operator.Api.SchemaTypes.{Schema, SchemaStatus}
use schema_strimzi_operator.Api.RegistryTypes.{SchemaRegistry}
use schema_strimzi_operator.Client.Types.{
  Body, HttpClient, HttpRequest, HttpResponse, SchemaRegistryClient, SchemaResponse,
}
use schema_strimzi_operator.Client.Calls.{register_schema}
use schema_strimzi_operator.World.{
  World, IsDocumented, Trace, got_schema, updated_schema, updated_schema_status, read_clock,
}
use schema_strimzi_operator.Exec.{finish}
use schema_strimzi_operator.Webhook.RegistryWebhook.{validate_create}
use schema_strimzi_operator.Controller.Effects.{done, key_of}
use schema_strimzi_operator.Controller.Quiet.{register_schema-Keeps}
use schema_strimzi_operator.Controller.Storage.{
  at_version, stored, IsServer, IsStored, quiet, on_sent, IsStored-got, IsStored-clock,
  IsStored-read, IsStored-accepts, IsStored-takes, stored-updated, stored-updated_status,
}
use schema_strimzi_operator.Controller.SchemaController.{
  schema_finalizer, with_finalizers, registered_condition, registered_status, register_request,
  registry_key, build_client, ensure_finalizer, refetch, apply_compatibility, write_registered,
  record_registered, register, reconcile,
}
use schema_strimzi_operator.Controller.SchemaController.Parts.{
  build_client-Keeps, apply_compatibility-Keeps,
}
use schema_strimzi_operator.Controller.SchemaController.Success.{
  build_client-total, register_schema-total,
}
use schema_strimzi_operator.Controller.SchemaController.Convergence.Converged.{
  IsRegistered, IsConverged, IsConverged-trans, rounds, registry_key-ext,
}
use schema_strimzi_operator.Controller.SchemaController.Convergence.Paths.{
  reconcile-kept, reconcile-added, register-completes,
}
use schema_strimzi_operator.Controller.SchemaController.Convergence.Registering.{
  Completes, register-Completes,
}

module _ (w : World) (d : IsDocumented w) (key : ObjectKey) (version : Trace → String)
    (first : Schema) (server : IsServer w key version first) (sr : SchemaRegistry)
    (reference : ObjectKey) (registry_there : (t : Trace) → w.get_registry t reference ≡ ok sr)
    (admitted : validate_create w sr ≡ none)
    (readable : (t : Trace) (key : ObjectKey)
      → (secret : Secret) × (w.get_secret t key ≡ ok secret))
    (parses : (cert key : String) → w.key_pair_error cert key ≡ none) (id : ℤ)
    (encodes : (body : Body) → w.marshal_error body ≡ none)
    (built : (method url : String) → w.new_request_error method url ≡ none)
    (answers : (t : Trace) (client : HttpClient) (req : HttpRequest)
      → req.method ≡ "POST"
      → (resp : HttpResponse) × (w.do_request t client req ≡ ok resp)
        × (resp.status_code ≡ 200)
        × (w.decode_id resp.body ≡ ok id)) where
  abbrev Stored : Schema → String → Trace → Type 0
  Stored = IsStored w key version first server

  registers :
      (x : Schema) (v : String) (t : Trace)
      → Stored x v t
      → key_of x.metadata ≡ key
      → registry_key x ≡ reference
      → Completes w key first id (at_version v x) x t
  registers =
      register-Completes w d key version first server sr reference registry_there admitted readable
        parses id encodes built answers

  -- One round, and the schema that is stored after it.
  abbrev Round : Schema → Trace → Type 0
  Round x t =
      (s : Schema) × ((reconcile w key t).0 ≡ done)
      × (stored key first (reconcile w key t).1 ≡ some s)
      × IsConverged w id x s

  -- The same of a reconciliation that comes down to a registration.
  Completes-Round :
      (held x y : Schema) (t u : Trace)
      → reconcile w key t ≡ finish (register w key held) u
      → Completes w key first id held y u
      → ((status : SchemaStatus)
          → IsRegistered id (record y { status = status })
          → IsConverged w id x (record y { status = status }))
      → Round x t
  Completes-Round held x y t u way (status, v, ends, kept, registered) converged = (
    record y { status = status },
    rw (way, ends) refl,
    rw (way, ends) kept,
    converged status registered,
  )

  module _ (x : Schema) (t : Trace) (content : stored key first t ≡ some x)
      (live : is_zero x.metadata.deletion_timestamp ≡ true) (same : key_of x.metadata ≡ key)
      (refers : registry_key x ≡ reference) where
    abbrev found_schema : Schema
    found_schema = at_version (version t) x

    now-Stored : Stored x (version t) t
    now-Stored = record { content = content; current = refl }

    found : w.get_schema t key ≡ ok found_schema
    found = IsStored-read w key version first server x (version t) t now-Stored

    abbrev read : Trace
    read = got_schema key (ok found_schema) ∷ t

    read-Stored : Stored x (version t) read
    read-Stored =
        IsStored-got w key version first server x (version t) key (ok found_schema) t now-Stored

    kept-Round : w.contains_finalizer x.metadata.finalizers schema_finalizer ≡ true → Round x t
    kept-Round held =
        Completes-Round found_schema x x t read
          (reconcile-kept w key found_schema t found live held)
          (registers x (version t) read read-Stored same refers)
          λ status registered. record {
            finalizer = held;
            registered = registered;
            same_key = refl;
            same_spec = refl;
            same_generation = refl;
            live = live;
          }

    abbrev added : Schema
    added = with_finalizers found_schema (w.add_finalizer x.metadata.finalizers schema_finalizer)

    abbrev protected : Trace
    protected = updated_schema added none ∷ read

    protected-Stored : Stored added (version protected) protected
    protected-Stored = record {
      content =
          rw live at
            (stored-updated w key version first server x (version t) read added read-Stored same);
      current = refl;
    }

    added-refers : registry_key added ≡ reference
    unfolding registry_key
    added-refers = refers

    added-Round : w.contains_finalizer x.metadata.finalizers schema_finalizer ≡ false → Round x t
    added-Round bare =
        let again = at_version (version protected) added in
        Completes-Round again x added t (got_schema key (ok again) ∷ protected)
          (reconcile-added w key found_schema t found live again bare
            (IsStored-takes w key version first server x (version t) read added read-Stored same
              refl)
            (IsStored-read w key version first server added (version protected) protected
              protected-Stored))
          (registers added (version protected) (got_schema key (ok again) ∷ protected)
            (IsStored-got w key version first server added (version protected) key (ok again)
              protected protected-Stored)
            same added-refers)
          λ status registered. record {
            finalizer = d.contains-add x.metadata.finalizers schema_finalizer;
            registered = registered;
            same_key = refl;
            same_spec = refl;
            same_generation = refl;
            live = live;
          }

    any-Round : Round x t
    any-Round = elim (Bool-cases (w.contains_finalizer x.metadata.finalizers schema_finalizer)) [
      | inl held ↦ kept-Round held
      | inr bare ↦ added-Round bare
    ]

  -- The reconciliation ends without an error and with no further round, and the schema that is
  -- stored after it has converged.
  abbrev pub Converges : Trace → Type 0
  Converges t =
      ((reconcile w key t).0 ≡ done)
      × ((s : Schema) × (stored key first (reconcile w key t).1 ≡ some s)
          × IsConverged w id first s)

  Round-Converges :
      (x : Schema) (t : Trace)
      → ((s : Schema) → IsConverged w id x s → IsConverged w id first s)
      → Round x t
      → Converges t
  Round-Converges x t trans (s, ends, kept, converged) = (ends, (s, kept, trans s converged))

  -- Let a schema be stored that is not being deleted, let nobody but the reconciler change it, let
  -- each read of it give what is stored at that moment, and let the server accept updates that come
  -- with the present resource version. Let the webhook have accepted the registry that the schema
  -- refers to, let this registry be found whenever its key is read, every secret be readable, and
  -- every pair of certificate and key parse. Let every body be encoded, every request be built, and
  -- every POST be answered with 200 and a body that holds the id. Then each of any number of
  -- reconciliations, one after the other, ends without an error and with no further round, whatever
  -- becomes of other requests; and after it the schema that is stored has the finalizer, this id,
  -- its generation as the observed one and the condition Ready True, and its key, spec, generation
  -- and lack of a deletion timestamp are as before the first.
  pub reconcile-Converges :
      is_zero first.metadata.deletion_timestamp ≡ true
      → key_of first.metadata ≡ key
      → registry_key first ≡ reference
      → (n : ℕ) → Converges (rounds w key n)
  reconcile-Converges live same refers zero =
      Round-Converges first [] (λ s converged. converged) (any-Round first [] refl live same refers)
  reconcile-Converges live same refers (suc n) =
      let t = rounds w key (suc n) in
      let (ends, (x, kept, before)) = reconcile-Converges live same refers n in
      Round-Converges x t (λ s converged. IsConverged-trans w id first x s before converged)
        (any-Round x t kept before.live (before.same_key ∙ same)
          (registry_key-ext x first before.same_key before.same_spec ∙ refers))
