-- ===== src/Controller/SchemaController/Removal.antt =====
-- What rounds of reconciliation make of a schema that is to be deleted and that nobody else changes.
use schema_strimzi_operator.Prelude.{
  ℕ, zero, suc, ◌⊎◌, String, true, false, Option, some, none, List, [], ◌∷◌, ◌≡◌, refl, sym, inl,
  inr, Option-cases,
}
use mathlib.Core.Path.{subst}
use schema_strimzi_operator.Error.{Result, not_found, ok, err}
use schema_strimzi_operator.Api.Meta.{ObjectKey, Secret, is_zero}
use schema_strimzi_operator.Api.SchemaTypes.{Schema}
use schema_strimzi_operator.Api.RegistryTypes.{SchemaRegistry}
use schema_strimzi_operator.Client.Types.{
  HttpClient, HttpRequest, HttpResponse, SchemaRegistryClient,
}
use schema_strimzi_operator.Client.Requests.{bare_request, subject_url}
use schema_strimzi_operator.World.{World, IsDocumented, Trace, got_schema, updated_schema, sent}
use schema_strimzi_operator.Webhook.RegistryWebhook.{validate_create}
use schema_strimzi_operator.Controller.Effects.{done, key_of}
use schema_strimzi_operator.Controller.Storage.{
  at_version, left, left_with, stored, IsServer, IsStored, quiet, on_sent, IsStored-got,
  IsStored-read, IsStored-takes, stored-updated,
}
use schema_strimzi_operator.Controller.SchemaController.{
  schema_finalizer, with_finalizers, registry_key, reconcile,
}
use schema_strimzi_operator.Controller.SchemaController.Parts.{build_client-Keeps}
use schema_strimzi_operator.Controller.SchemaController.Success.{
  build_client-total, delete_subject-total,
}
use schema_strimzi_operator.Controller.SchemaController.Convergence.Converged.{rounds}
use schema_strimzi_operator.Controller.SchemaController.Convergence.Paths.{
  reconcile-deletes, reconcile-released, reconcile-gone,
}

-- The schema is gone, or waits to be deleted without the finalizer of this operator.
abbrev pub IsReleased : World → Option Schema → Type 0
IsReleased w none = Unit
IsReleased w (some s) =
    (is_zero s.metadata.deletion_timestamp ≡ false)
    × (w.contains_finalizer s.metadata.finalizers schema_finalizer ≡ false)

left_with-IsReleased :
    (w : World) (fs : List String) (s : Schema)
    → is_zero s.metadata.deletion_timestamp ≡ false
    → w.contains_finalizer s.metadata.finalizers schema_finalizer ≡ false
    → IsReleased w (left_with fs s)
left_with-IsReleased w [] s dying bare = tt
left_with-IsReleased w (f ∷ fs) s dying bare = (dying, bare)

left-IsReleased :
    (w : World) (s : Schema)
    → is_zero s.metadata.deletion_timestamp ≡ false
    → w.contains_finalizer s.metadata.finalizers schema_finalizer ≡ false
    → IsReleased w (left s)
left-IsReleased w s dying bare =
    rw dying (left_with-IsReleased w s.metadata.finalizers s dying bare)

-- A reconciliation reads the schema, does nothing else and asks for nothing.
abbrev pub Rests : World → ObjectKey → Trace → Type 0
Rests w key t = (r : Result Schema) × (reconcile w key t ≡ (done, got_schema key r ∷ t))

module _ (w : World) (d : IsDocumented w) (key : ObjectKey) (version : Trace → String)
    (first : Schema) (server : IsServer w key version first) where
  IsReleased-Rests : (t : Trace) → IsReleased w (stored key first t) → Rests w key t
  IsReleased-Rests t h = elim (Option-cases (stored key first t)) [
    | inl gone ↦
        let (text, failed) = server.read_gone t gone in
        (err (not_found text), reconcile-gone w d key text t failed)
    | inr (s, kept) ↦
        let (dying, bare) = subst (IsReleased w) kept h in
        (
          ok (at_version (version t) s),
          reconcile-released w key (at_version (version t) s) t (server.read t s kept) dying bare,
        )
  ]

  module _ (sr : SchemaRegistry) (reference : ObjectKey)
      (registry_there : (t : Trace) → w.get_registry t reference ≡ ok sr)
      (admitted : validate_create w sr ≡ none)
      (readable : (t : Trace) (key : ObjectKey)
        → (secret : Secret) × (w.get_secret t key ≡ ok secret))
      (parses : (cert key : String) → w.key_pair_error cert key ≡ none)
      (built : (method url : String) → w.new_request_error method url ≡ none)
      (answers : (t : Trace) (client : HttpClient) (req : HttpRequest)
        → req.method ≡ "DELETE"
        → (resp : HttpResponse) × (w.do_request t client req ≡ ok resp)
          × ((resp.status_code ≡ 404) ⊎ (resp.status_code ≡ 200)))
      (dying : is_zero first.metadata.deletion_timestamp ≡ false)
      (held : w.contains_finalizer first.metadata.finalizers schema_finalizer ≡ true)
      (same : key_of first.metadata ≡ key) (refers : registry_key first ≡ reference) where
    -- The first reconciliation ends without an error and with no further round, and the last it does
    -- is to delete the subject in the registry and, after the answer, to give up the finalizer.
    abbrev pub Removes : Type 0
    Removes =
        (c : SchemaRegistryClient) × (resp : HttpResponse) × (s : Schema) × (t : Trace) × (reconcile
            w key []
          ≡ (
            done,
            updated_schema s none
                ∷ sent c.http_client (bare_request w c "DELETE" (subject_url c first.spec.subject))
                    (ok resp)
                ∷ t,
          ))
        × (w.contains_finalizer s.metadata.finalizers schema_finalizer ≡ false)

    first_round : Removes × IsReleased w (stored key first (rounds w key 1))
    unfolding registry_key
    first_round =
        let v = version [] in
        let s = at_version v first in
        let read = got_schema key (ok s) ∷ [] in
        let start : IsStored w key version first server first v [] = record {
          content = refl;
          current = refl;
        } in
        let read_h = IsStored-got w key version first server first v key (ok s) [] start in
        let q = quiet w key version first server first v in
        let (c, t', client_built) =
          build_client-total w d s sr (λ t. rw refers (registry_there t)) admitted readable parses
            read in
        let h' =
          subst (λ r. IsStored w key version first server first v r.1) client_built
            ((build_client-Keeps w q s).at read read_h) in
        let (resp, deleted) = delete_subject-total w built answers c first.spec.subject t' in
        let request = bare_request w c "DELETE" (subject_url c first.spec.subject) in
        let t'' = sent c.http_client request (ok resp) ∷ t' in
        let h'' =
          (on_sent w key version first server first v).at c.http_client request (ok resp) t' tt
            h' in
        let released =
          with_finalizers s (w.remove_finalizer first.metadata.finalizers schema_finalizer) in
        let bare = d.contains-remove first.metadata.finalizers schema_finalizer in
        let run =
          reconcile-deletes w key s [] (IsStored-read w key version first server first v [] start)
            dying c t' t'' held client_built deleted
            (IsStored-takes w key version first server first v t'' released h'' same refl) in
        let kept = stored-updated w key version first server first v t'' released h'' same in
        (
          (c, resp, released, t', run, bare),
          subst (λ r. IsReleased w (stored key first r.1)) (sym run)
              (subst (IsReleased w) (sym kept) (left-IsReleased w released dying bare)),
        )

    -- Let a schema with the finalizer be stored that is being deleted, let nobody but the
    -- reconciler change it, let each read of it give what is stored at that moment, and let the
    -- server accept updates that come with the present resource version. Let the webhook have
    -- accepted the registry that the schema refers to, let this registry be found whenever its key
    -- is read, every secret be readable, and every pair of certificate and key parse. Let every
    -- request be built, and every DELETE be answered with 404 or 200. Then the first reconciliation
    -- ends without an error and with no further round, and the last two things it does are to
    -- delete the subject in the registry and then to give the finalizer up. After any number of
    -- further reconciliations the schema is gone, or still waits to be deleted without the
    -- finalizer, and one more reads it, does nothing else, and ends the same way.
    pub reconcile-Removes :
        (n : ℕ)
        → Removes
          × IsReleased w (stored key first (rounds w key (suc n)))
          × Rests w key (rounds w key (suc n))
    reconcile-Removes zero =
        let (removes, released) = first_round in
        (removes, released, IsReleased-Rests (rounds w key 1) released)
    reconcile-Removes (suc n) =
        let (removes, released, (r, rests)) = reconcile-Removes n in
        let still = subst (λ r. IsReleased w (stored key first r.1)) (sym rests) released in
        (removes, still, IsReleased-Rests (rounds w key (suc (suc n))) still)
