-- ===== src/Controller/SchemaController/Release.antt =====
-- When a reconciliation gives a schema up that is being deleted.
use schema_strimzi_operator.Prelude.{
  true, false, some, none, ◌∷◌, ◌≡◌, ◌↔◌, ◌⊎◌, refl, sym, ◌∙◌, inl, inr, Option-cases,
}
use mathlib.Core.Path.{subst}
use schema_strimzi_operator.Error.{Error, Result, ok, err, Result-cases}
use schema_strimzi_operator.Api.Meta.{ObjectKey, is_zero}
use schema_strimzi_operator.Api.SchemaTypes.{Schema}
use schema_strimzi_operator.Client.Types.{SchemaRegistryClient, HttpResponse}
use schema_strimzi_operator.Client.Requests.{bare_request, subject_url}
use schema_strimzi_operator.Client.Calls.{delete_subject}
use schema_strimzi_operator.Client.Answers.{delete_subject-eq-nil_iff}
use schema_strimzi_operator.World.{World, Trace, got_schema, sent}
use schema_strimzi_operator.Exec.{finish}
use schema_strimzi_operator.Controller.Effects.{done, stop}
use schema_strimzi_operator.Controller.SchemaController.{
  schema_finalizer, with_finalizers, build_client, delete_from_registry, release, finalize,
  reconcile,
}
use schema_strimzi_operator.Client.Urls.{delete_subject-at}
use schema_strimzi_operator.Controller.SchemaController.Settled.{stop_error}

module _ (w : World) (key : ObjectKey) (s : Schema) (t : Trace) where
  -- The attempt to build the client for the schema that was read, and the history after it.
  abbrev pub attempt : Result SchemaRegistryClient × Trace
  attempt = build_client w s (got_schema key (ok s) ∷ t)

  -- After the history, the server accepts the schema without the finalizer.
  abbrev pub IsLetGo : Trace → Type 0
  IsLetGo t =
      w.update_schema t
        (with_finalizers s (w.remove_finalizer s.metadata.finalizers schema_finalizer))
      ≡ none

  -- The subject is gone from the registry, and the server accepts the update after that.
  abbrev pub IsDeleted : SchemaRegistryClient → Type 0
  IsDeleted c =
      let req = bare_request w c "DELETE" (subject_url c s.spec.subject) in
      (w.new_request_error "DELETE" (subject_url c s.spec.subject) ≡ none)
      × ((resp : HttpResponse) × (w.do_request attempt.1 c.http_client req ≡ ok resp)
          × ((resp.status_code ≡ 404) ⊎ (resp.status_code ≡ 200))
          × IsLetGo (sent c.http_client req (ok resp) ∷ attempt.1))

  module _ (found : w.get_schema t key ≡ ok s)
      (dying : is_zero s.metadata.deletion_timestamp ≡ false)
      (held : w.contains_finalizer s.metadata.finalizers schema_finalizer ≡ true) where
    release-eq-done_iff : (t : Trace) → ((finish (release w s) t).0 ≡ done) ↔ IsLetGo t
    unfolding release
    release-eq-done_iff t =
        let released =
          with_finalizers s (w.remove_finalizer s.metadata.finalizers schema_finalizer) in
        elim (Option-cases (w.update_schema t released)) [
          | inl accepted ↦ rw accepted (λ h. refl, λ h. refl)
          | inr (e, refused) ↦ rw refused (λ h. absurd (stop_error w e h), λ h. absurd (cc h))
        ]

    unbuilt-release :
        (e : Error) → attempt.0 ≡ err e → (reconcile w key t).0 ≡ (finish (release w s) attempt.1).0
    unfolding reconcile finalize delete_from_registry
    unbuilt-release e unbuilt = rw (found, dying, held, unbuilt) refl

    deleted-release :
        (c : SchemaRegistryClient)
        → attempt.0 ≡ ok c
        → (delete_subject w c s.spec.subject attempt.1).0 ≡ none
        → (reconcile w key t).0
          ≡ (finish (release w s) (delete_subject w c s.spec.subject attempt.1).1).0
    unfolding reconcile finalize delete_from_registry
    deleted-release c built deleted = rw (found, dying, held, built, deleted) refl

    undeleted-stop :
        (c : SchemaRegistryClient) (e : Error)
        → attempt.0 ≡ ok c
        → (delete_subject w c s.spec.subject attempt.1).0 ≡ some e
        → (reconcile w key t).0 ≡ stop (some e)
    unfolding reconcile finalize delete_from_registry
    undeleted-stop c e built failed = rw (found, dying, held, built, failed) refl

    answered-trace :
        (c : SchemaRegistryClient) (resp : HttpResponse)
        → let req = bare_request w c "DELETE" (subject_url c s.spec.subject) in
          w.new_request_error "DELETE" (subject_url c s.spec.subject) ≡ none
          → w.do_request attempt.1 c.http_client req ≡ ok resp
          → (delete_subject w c s.spec.subject attempt.1).1
            ≡ sent c.http_client req (ok resp) ∷ attempt.1
    answered-trace c resp asked answered =
        delete_subject-at w c s.spec.subject _ attempt.1 refl asked ∙ rw answered refl

    reconcile-IsDeleted :
        (c : SchemaRegistryClient) → attempt.0 ≡ ok c → ((reconcile w key t).0 ≡ done) ↔ IsDeleted c
    reconcile-IsDeleted c built =
        let subject = s.spec.subject in
        let (to, from) = delete_subject-eq-nil_iff w c subject attempt.1 in
        elim (Option-cases (delete_subject w c subject attempt.1).0) [
          | inl deleted ↦
              let ends = deleted-release c built deleted in
              let (go, back) = release-eq-done_iff (delete_subject w c subject attempt.1).1 in
              let (asked, answers) = to deleted in
              (
                λ h. elim answers [
                  | inl (resp, answered, gone) ↦ (
                    asked,
                    (
                      resp,
                      answered,
                      inl gone,
                      subst IsLetGo (answered-trace c resp asked answered) (go (sym ends ∙ h)),
                    ),
                  )
                  | inr (resp, answered, fine) ↦ (
                    asked,
                    (
                      resp,
                      answered,
                      inr fine,
                      subst IsLetGo (answered-trace c resp asked answered) (go (sym ends ∙ h)),
                    ),
                  )
                ],
                λ (asked', (resp, answered, code, accepted)).
                    ends
                    ∙ back (subst IsLetGo (sym (answered-trace c resp asked' answered)) accepted),
              )
          | inr (e, failed) ↦
              let ends = undeleted-stop c e built failed in
              (
                λ h. absurd (stop_error w e (sym ends ∙ h)),
                λ (b, (resp, answered, code, accepted)).
                    let deleted = from (
                      b,
                      elim code [
                        | inl gone ↦ inl (resp, answered, gone)
                        | inr fine ↦ inr (resp, answered, fine)
                      ],
                    ) in
                    absurd (cc (deleted, failed)),
              )
        ]

    -- Let the reconciliation of a key find a schema that is being deleted and has the finalizer. It
    -- ends without an error and with no further round exactly if the update that gives the finalizer
    -- up is accepted, and that comes after one of two things: no client can be built for the schema,
    -- or DELETE on its subject, with the client that is built, can be built and is answered with 404
    -- or 200.
    pub reconcile-eq-done_iff :
        ((reconcile w key t).0 ≡ record { requeue_after = 0; error = none }) ↔ (
          ((e : Error) × (attempt.0 ≡ err e) × IsLetGo attempt.1)
          ⊎ ((c : SchemaRegistryClient) × (attempt.0 ≡ ok c) × IsDeleted c))
    reconcile-eq-done_iff = elim (Result-cases attempt.0) [
      | inl (c, built) ↦
          let (to, from) = reconcile-IsDeleted c built in
          (
            λ h. inr (c, built, to h),
            λ h. elim h [
              | inl (e, unbuilt, go) ↦ absurd (cc (built, unbuilt))
              | inr (other, built', gone) ↦
                  let same : other ≡ c = cc (built, built') in from (subst IsDeleted same gone)
            ],
          )
      | inr (e, unbuilt) ↦
          let ends = unbuilt-release e unbuilt in
          let (to, from) = release-eq-done_iff attempt.1 in
          (
            λ h. inl (e, unbuilt, to (sym ends ∙ h)),
            λ h. elim h [
              | inl (e', unbuilt', go) ↦ ends ∙ from go
              | inr (c, built, gone) ↦ absurd (cc (built, unbuilt))
            ],
          )
    ]
