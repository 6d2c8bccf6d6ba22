-- ===== src/Controller/SchemaController/Convergence/Paths.antt =====
-- What a reconciliation comes down to where nothing fails.
use schema_strimzi_operator.Prelude.{true, false, none, ◌∷◌, ◌≡◌, refl, String}
use schema_strimzi_operator.Error.{ok, not_found, err}
use schema_strimzi_operator.Api.Meta.{ObjectKey, is_zero}
use schema_strimzi_operator.Api.SchemaTypes.{Schema}
use schema_strimzi_operator.Client.Types.{SchemaRegistryClient, SchemaResponse}
use schema_strimzi_operator.Client.Calls.{register_schema, delete_subject}
use schema_strimzi_operator.World.{
  World, Trace, got_schema, updated_schema, updated_schema_status, read_clock, IsDocumented,
}
use schema_strimzi_operator.Exec.{finish}
use schema_strimzi_operator.Controller.Effects.{done}
use schema_strimzi_operator.Controller.SchemaController.{
  schema_finalizer, with_finalizers, registered_condition, registered_status, register_request,
  build_client, ensure_finalizer, refetch, apply_compatibility, write_registered, record_registered,
  register, reconcile, delete_from_registry, release, finalize,
}

-- The two ways into the registration.
module _ (w : World) (key : ObjectKey) (s : Schema) (t : Trace) (found : w.get_schema t key ≡ ok s)
    (live : is_zero s.metadata.deletion_timestamp ≡ true) where
  pub reconcile-kept :
      w.contains_finalizer s.metadata.finalizers schema_finalizer ≡ true
      → reconcile w key t ≡ finish (register w key s) (got_schema key (ok s) ∷ t)
  unfolding reconcile ensure_finalizer
  reconcile-kept held = rw (found, live, held) refl

  pub reconcile-added :
      (held : Schema)
      → let added = with_finalizers s (w.add_finalizer s.metadata.finalizers schema_finalizer) in
        let protected = updated_schema added none ∷ got_schema key (ok s) ∷ t in
        w.contains_finalizer s.metadata.finalizers schema_finalizer ≡ false
        → w.update_schema (got_schema key (ok s) ∷ t) added ≡ none
        → w.get_schema protected key ≡ ok held
        → reconcile w key t ≡ finish (register w key held) (got_schema key (ok held) ∷ protected)
  unfolding reconcile ensure_finalizer refetch
  reconcile-added held bare added again = rw (found, live, bare, added, again) refl

pub register-completes :
    (w : World) (key : ObjectKey) (s held : Schema) (t t' t'' : Trace) (c : SchemaRegistryClient)
    (resp : SchemaResponse)
    → build_client w s t ≡ (ok c, t')
    → register_schema w c s.spec.subject (register_request s) t' ≡ (ok resp, t'')
    → w.get_schema (apply_compatibility w c s t'').1 key ≡ ok held
    → let read = got_schema key (ok held) ∷ (apply_compatibility w c s t'').1 in
      let before = read_clock (w.now read) ∷ read in
      let cs =
        w.set_status_condition before held.status.conditions (registered_condition w held resp) in
      let wrote = record held { status = registered_status w held resp (w.now read) cs } in
      w.update_schema_status before wrote ≡ none
      → finish (register w key s) t ≡ (done, updated_schema_status wrote none ∷ before)
unfolding register record_registered write_registered
register-completes w key s held t t' t'' c resp built registered again accepted =
    rw (built, registered, again, accepted) refl

-- The deletion path.
module _ (w : World) (key : ObjectKey) (s : Schema) (t : Trace) (found : w.get_schema t key ≡ ok s)
    (dying : is_zero s.metadata.deletion_timestamp ≡ false) where
  pub reconcile-deletes :
      (c : SchemaRegistryClient) (t' t'' : Trace)
      → let released =
          with_finalizers s (w.remove_finalizer s.metadata.finalizers schema_finalizer) in
        w.contains_finalizer s.metadata.finalizers schema_finalizer ≡ true
        → build_client w s (got_schema key (ok s) ∷ t) ≡ (ok c, t')
        → delete_subject w c s.spec.subject t' ≡ (none, t'')
        → w.update_schema t'' released ≡ none
        → reconcile w key t ≡ (done, updated_schema released none ∷ t'')
  unfolding reconcile finalize delete_from_registry release
  reconcile-deletes c t' t'' held built deleted accepted =
      rw (found, dying, held, built, deleted, accepted) refl

  pub reconcile-released :
      w.contains_finalizer s.metadata.finalizers schema_finalizer ≡ false
      → reconcile w key t ≡ (done, got_schema key (ok s) ∷ t)
  unfolding reconcile finalize
  reconcile-released bare = rw (found, dying, bare) refl

pub reconcile-gone :
    (w : World) (d : IsDocumented w) (key : ObjectKey) (text : String) (t : Trace)
    → w.get_schema t key ≡ err (not_found text)
    → reconcile w key t ≡ (done, got_schema key (err (not_found text)) ∷ t)
unfolding reconcile
reconcile-gone w d key text t gone = rw (gone, d.ignore-IsNotFound (not_found text) tt) refl
