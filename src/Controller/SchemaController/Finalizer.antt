-- ===== src/Controller/SchemaController/Finalizer.antt =====
-- When the reconciler gives the finalizer up.
use schema_strimzi_operator.Prelude.{
  String, false, Option, none, some, List, ◌∷◌, ◌≡◌, ◌⊎◌, inl, inr, refl, ◌∙◌, Bool-cases,
  Option-cases,
}
use schema_strimzi_operator.Error.{Error, Result, ok, err}
use schema_strimzi_operator.Api.Meta.{ObjectKey}
use schema_strimzi_operator.Api.SchemaTypes.{Schema}
use schema_strimzi_operator.Client.Types.{HttpResponse, SchemaRegistryClient}
use schema_strimzi_operator.Client.Requests.{subject_url, bare_request}
use schema_strimzi_operator.Client.Answers.{delete_subject-eq-nil_iff}
use schema_strimzi_operator.Client.Urls.{delete_subject-at}
use schema_strimzi_operator.Client.Calls.{delete_subject}
use schema_strimzi_operator.World.{World, IsDocumented, Event, Trace, updated_schema, sent}
use schema_strimzi_operator.Controller.Effects.{update_schema}
use schema_strimzi_operator.Controller.Keeps.{Keeps, Holds, keeps_rules}
use schema_strimzi_operator.Controller.Quiet.{KeepsSent}
use schema_strimzi_operator.Controller.SchemaController.{
  schema_finalizer, with_finalizers, build_client, delete_from_registry, release, finalize, refetch,
  ensure_finalizer, reconcile,
}
use schema_strimzi_operator.Controller.SchemaController.Parts.{delete_from_registry-Keeps}
use schema_strimzi_operator.Controller.SchemaController.Invariants.{
  Tolerates, get_schema-Keeps, register-Keeps,
}

module _ (w : World) where
  -- Why the finalizer of the schema may be given up after the history: the last event is a DELETE of
  -- its subject, with the client that was built for it just before, and was answered with 404 or
  -- 200; or no client could be built for it.
  pub data MayRelease (s : Schema) (t : Trace) : Type 0 where
    acknowledged :
        (c : SchemaRegistryClient) (resp : HttpResponse) (start before : Trace)
        → build_client w s start ≡ (ok c, before)
        → t
          ≡ sent c.http_client (bare_request w c "DELETE" (subject_url c s.spec.subject)) (ok resp)
            ∷ before
        → (resp.status_code ≡ 404) ⊎ (resp.status_code ≡ 200)
        → MayRelease s t
    no_client : (before : Trace) (e : Error) → build_client w s before ≡ (err e, t) → MayRelease s t

  -- A schema is written without the finalizer only when it may be given up.
  abbrev pub ReleaseRule : Event → Trace → Type 0
  ReleaseRule (updated_schema s answer) t =
      w.contains_finalizer s.metadata.finalizers schema_finalizer ≡ false → MayRelease s t
  ReleaseRule _ t = Unit

  delete_subject-acknowledged :
      (c : SchemaRegistryClient) (subject : String) (t : Trace)
      → (delete_subject w c subject t).0 ≡ none
      → (resp : HttpResponse) × ((delete_subject w c subject t).1
          ≡ sent c.http_client (bare_request w c "DELETE" (subject_url c subject)) (ok resp) ∷ t)
        × ((resp.status_code ≡ 404) ⊎ (resp.status_code ≡ 200))
  delete_subject-acknowledged c subject t h =
      let (built, answered) = (delete_subject-eq-nil_iff w c subject t).0 h in
      let trace = delete_subject-at w c subject _ t refl built in
      elim answered [
        | inl (resp, e, code) ↦ (resp, trace ∙ rw e refl, inl code)
        | inr (resp, e, code) ↦ (resp, trace ∙ rw e refl, inr code)
      ]

  released_after :
      (s : Schema) (t t' : Trace) (r : Result SchemaRegistryClient)
      → build_client w s t ≡ (r, t')
      → (delete_from_registry w s t).0 ≡ none
      → MayRelease s (delete_from_registry w s t).1
  unfolding delete_from_registry
  released_after s t t' (ok c) built h =
      let (resp, trace, code) = delete_subject-acknowledged c s.spec.subject t' (rw built at h) in
      rw built (acknowledged c resp t t' built trace code)
  released_after s t t' (err e) failed h = rw failed (no_client t e failed)

  -- A deletion from the registry that reports no error ends where the finalizer may be given up.
  delete_from_registry-MayRelease :
      (s : Schema) (t : Trace)
      → (delete_from_registry w s t).0 ≡ none
      → MayRelease s (delete_from_registry w s t).1
  delete_from_registry-MayRelease s t h =
      released_after s t (build_client w s t).1 (build_client w s t).0 refl h

  -- The reason does not depend on the finalizers.
  MayRelease-with_finalizers :
      (s : Schema) (fs : List String) (t : Trace)
      → MayRelease s t
      → MayRelease (with_finalizers s fs) t
  unfolding build_client
  MayRelease-with_finalizers s fs t (acknowledged c resp start before built e code) =
      acknowledged c resp start before built e code
  MayRelease-with_finalizers s fs t (no_client before e failed) = no_client before e failed

  -- No event but the update of a schema is ruled.
  tolerant : Tolerates w (Holds ReleaseRule)
  tolerant = record {
    quiet = record { registry = λ key r t h. (tt, h); secret = λ key r t h. (tt, h) };
    get = λ key t h. (tt, h);
    clock = λ time t h. (tt, h);
    status = λ s t h. (tt, h);
  }

  on_sent : KeepsSent (λ _. Unit {0}) (Holds ReleaseRule)
  on_sent = record { at = λ client req r t _ h. (tt, h) }

  -- The update that gives the finalizer up, after a deletion without an error.
  abbrev released : Schema → Schema
  released s = with_finalizers s (w.remove_finalizer s.metadata.finalizers schema_finalizer)

  finalize-Holds :
      (s : Schema) (t t' : Trace) (failed : Option Error)
      → delete_from_registry w s t ≡ (failed, t')
      → Holds ReleaseRule t'
      → (failed ≡ none → MayRelease (released s) t')
      → Holds ReleaseRule t
      → Holds ReleaseRule (finalize w s t).1
  unfolding finalize release
  finalize-Holds s t t' (some e) deleted h may before =
      elim (Bool-cases (w.contains_finalizer s.metadata.finalizers schema_finalizer)) [
        | inl there ↦ rw (there, deleted) h
        | inr gone ↦ rw gone before
      ]
  finalize-Holds s t t' none deleted h may before =
      elim (Bool-cases (w.contains_finalizer s.metadata.finalizers schema_finalizer)) [
        | inl there ↦
            rw (there, deleted)
              (elim (Option-cases (w.update_schema t' (released s))) [
                | inl accepted ↦ rw accepted ((λ _. may refl), h)
                | inr (e, refused) ↦ rw refused ((λ _. may refl), h)
              ])
        | inr gone ↦ rw gone before
      ]

  add-Keeps :
      IsDocumented w
      → (s : Schema)
      → Keeps (Holds ReleaseRule) (
          update_schema w
            (with_finalizers s (w.add_finalizer s.metadata.finalizers schema_finalizer)))
  unfolding update_schema
  add-Keeps d s = record {
    at = λ t h. ((λ absent. cc (d.contains-add s.metadata.finalizers schema_finalizer)), h);
  }

  finalize-Keeps : (s : Schema) → Keeps (Holds ReleaseRule) (finalize w s)
  finalize-Keeps s = record {
    at = λ t h.
        finalize-Holds s t (delete_from_registry w s t).1 (delete_from_registry w s t).0 refl
          ((delete_from_registry-Keeps w tolerant.quiet on_sent s tt).at t h)
          (λ none. MayRelease-with_finalizers s _ _ (delete_from_registry-MayRelease s t none)) h;
  }

  module _ (d : IsDocumented w) where
    ensure_finalizer-Keeps :
        (key : ObjectKey) (s : Schema) → Keeps (Holds ReleaseRule) (ensure_finalizer w key s)
    unfolding ensure_finalizer refetch
    ensure_finalizer-Keeps key s = search (keeps_rules, add-Keeps d s) depth 16

    reconcile-Keeps : (key : ObjectKey) → Keeps (Holds ReleaseRule) (reconcile w key)
    unfolding reconcile
    reconcile-Keeps key =
        search
          (
            keeps_rules,
            get_schema-Keeps w tolerant,
            finalize-Keeps,
            ensure_finalizer-Keeps,
            register-Keeps w tolerant on_sent tt tt tt,
          )
          depth 20

    -- In a history that obeys the rule for giving up the finalizer, a reconciliation obeys it too:
    -- whenever it writes a schema without the finalizer, the last event before is a DELETE of the
    -- schema's subject with the client that was built for it just before, answered with 404 or 200,
    -- or no client could be built for it.
    pub reconcile-ReleaseRule :
        (key : ObjectKey) (t : Trace)
        → Holds ReleaseRule t
        → Holds ReleaseRule (reconcile w key t).1
    reconcile-ReleaseRule key = (reconcile-Keeps key).at
