-- ===== src/Manager/Subjects.antt =====
-- The operator and the webhook together: the subject of a schema from its creation to its deletion.
use schema_strimzi_operator.Prelude.{some, [], ◌∷◌, ◌≡◌, false, refl, sym, ap, ◌∙◌, inl, inr}
use mathlib.Core.Path.{subst}
use schema_strimzi_operator.Error.{ok, err, Result-cases}
use schema_strimzi_operator.Api.Meta.{ObjectKey}
use schema_strimzi_operator.Api.SchemaTypes.{Schema}
use schema_strimzi_operator.Client.Types.{SchemaRegistryClient, registration}
use schema_strimzi_operator.Client.Requests.{json_request, versions_url}
use schema_strimzi_operator.World.{
  World, IsDocumented, Event, Trace, got_schema, got_registry, got_secret, listed_schemas,
  listed_registries, updated_schema, updated_schema_status, updated_registry_status, sent,
  read_clock,
}
use schema_strimzi_operator.Webhook.SchemaRules.{Admitted, Admitted-immutable}
use schema_strimzi_operator.Controller.Effects.{key_of}
use schema_strimzi_operator.Controller.Keeps.{Holds}
use schema_strimzi_operator.Controller.SchemaController.{schema_finalizer}
use schema_strimzi_operator.Controller.SchemaController.Parts.{registration_of}
use schema_strimzi_operator.Controller.SchemaController.Finalizer.{MayRelease, ReleaseRule}
use schema_strimzi_operator.Controller.SchemaController.Freshness.{latest, FreshRule}
use schema_strimzi_operator.Controller.SchemaController.Registration.{IsCovered, RegisterRule}
use schema_strimzi_operator.Manager.Histories.{Reach, Reach-IsLawful}
use schema_strimzi_operator.Manager.Answers.{IsAnswered, Reach-Holds}

module _ (w : World) (first : ObjectKey → Schema) where
  -- A read gives the schema with the key, as the webhook has let it become since its creation.
  abbrev pub IsAdmitted : ObjectKey → Schema → Type 0
  IsAdmitted key s = (key_of s.metadata ≡ key) × Admitted w (first key) s

  abbrev ReadRule : Event → Trace → Type 0
  ReadRule (got_schema key (ok s)) t = IsAdmitted key s
  ReadRule _ t = Unit

  -- Each registration, and each update that gives a finalizer up, is about the subject with which
  -- the schema was created.
  abbrev pub SubjectRule : Event → Trace → Type 0
  SubjectRule (sent client req answer) t =
      req.method ≡ "POST"
      → (key : ObjectKey) × (s : Schema) × (c : SchemaRegistryClient) × (client ≡ c.http_client)
        × (req
            ≡ json_request w c "POST" (versions_url c (first key).spec.subject)
                (registration (registration_of s)))
        × IsCovered w key s t
        × IsAdmitted key s
  SubjectRule (updated_schema s answer) t =
      w.contains_finalizer s.metadata.finalizers schema_finalizer ≡ false
      → (s.spec.subject ≡ (first (key_of s.metadata)).spec.subject) × MayRelease w s t
  SubjectRule _ t = Unit

  IsCovered-IsAdmitted :
      (key : ObjectKey) (s : Schema) (t : Trace)
      → IsCovered w key s t
      → Holds ReadRule t
      → IsAdmitted key s
  IsCovered-IsAdmitted key s (got_registry k r ∷ t) c (_, h) = IsCovered-IsAdmitted key s t c h
  IsCovered-IsAdmitted key s (got_secret k r ∷ t) c (_, h) = IsCovered-IsAdmitted key s t c h
  IsCovered-IsAdmitted key s (got_schema k (ok r) ∷ t) (same_key, same, _) (a, h) =
      rw (same_key, same) at a
  IsCovered-IsAdmitted key s (got_schema k (err e) ∷ t) c h = absurd c
  IsCovered-IsAdmitted key s (listed_schemas namespace r ∷ t) c h = absurd c
  IsCovered-IsAdmitted key s (listed_registries namespace r ∷ t) c h = absurd c
  IsCovered-IsAdmitted key s (updated_schema x r ∷ t) c h = absurd c
  IsCovered-IsAdmitted key s (updated_schema_status x r ∷ t) c h = absurd c
  IsCovered-IsAdmitted key s (updated_registry_status x r ∷ t) c h = absurd c
  IsCovered-IsAdmitted key s (sent client req r ∷ t) c h = absurd c
  IsCovered-IsAdmitted key s (read_clock time ∷ t) c h = absurd c
  IsCovered-IsAdmitted key s [] c h = absurd c

  latest-IsAdmitted :
      (t : Trace) (s : Schema)
      → latest t ≡ some s
      → Holds ReadRule t
      → IsAdmitted (key_of s.metadata) s
  latest-IsAdmitted [] s e h = absurd (cc e)
  latest-IsAdmitted (got_schema key (ok r) ∷ t) s e ((named, admitted), h) =
      let same : r ≡ s = cc e in
      subst (λ s. IsAdmitted (key_of s.metadata) s) same (refl, rw named admitted)
  latest-IsAdmitted (got_schema key (err f) ∷ t) s e (a, h) = latest-IsAdmitted t s e h
  latest-IsAdmitted (got_registry key r ∷ t) s e (a, h) = latest-IsAdmitted t s e h
  latest-IsAdmitted (got_secret key r ∷ t) s e (a, h) = latest-IsAdmitted t s e h
  latest-IsAdmitted (listed_schemas namespace r ∷ t) s e (a, h) = latest-IsAdmitted t s e h
  latest-IsAdmitted (listed_registries namespace r ∷ t) s e (a, h) = latest-IsAdmitted t s e h
  latest-IsAdmitted (updated_schema x r ∷ t) s e (a, h) = latest-IsAdmitted t s e h
  latest-IsAdmitted (updated_schema_status x r ∷ t) s e (a, h) = latest-IsAdmitted t s e h
  latest-IsAdmitted (updated_registry_status x r ∷ t) s e (a, h) = latest-IsAdmitted t s e h
  latest-IsAdmitted (sent client req r ∷ t) s e (a, h) = latest-IsAdmitted t s e h
  latest-IsAdmitted (read_clock time ∷ t) s e (a, h) = latest-IsAdmitted t s e h

  module _ (d : IsDocumented w) where
    subject-kept :
        (key : ObjectKey) (s : Schema)
        → IsAdmitted key s
        → s.spec.subject ≡ (first key).spec.subject
    subject-kept key s (named, admitted) = (Admitted-immutable d admitted).0

    event-SubjectRule :
        (e : Event) (t : Trace)
        → ReleaseRule w e t
        → RegisterRule w e t
        → FreshRule e t
        → Holds ReadRule t
        → SubjectRule e t
    event-SubjectRule (sent client req answer) t release register fresh h = λ post.
        let (key, s, (c, from, built), covered) = register post in
        let admitted = IsCovered-IsAdmitted key s t covered h in
        (
          key,
          s,
          c,
          from,
          built
              ∙ ap
                  (λ subject.
                    json_request w c "POST" (versions_url c subject)
                      (registration (registration_of s)))
                  (subject-kept key s admitted),
          covered,
          admitted,
        )
    event-SubjectRule (updated_schema s answer) t release register (read, last, same) h = λ gone.
        let kept = subject-kept (key_of read.metadata) read (latest-IsAdmitted t read last h) in
        (
          ap (λ x. x.spec.subject) same
              ∙ kept
              ∙ ap (λ x. (first (key_of x.metadata)).spec.subject) (sym same),
          release gone,
        )
    event-SubjectRule (updated_schema_status x r) t release register fresh h = tt
    event-SubjectRule (got_schema key r) t release register fresh h = tt
    event-SubjectRule (got_registry key r) t release register fresh h = tt
    event-SubjectRule (got_secret key r) t release register fresh h = tt
    event-SubjectRule (listed_schemas namespace r) t release register fresh h = tt
    event-SubjectRule (listed_registries namespace r) t release register fresh h = tt
    event-SubjectRule (updated_registry_status x r) t release register fresh h = tt
    event-SubjectRule (read_clock time) t release register fresh h = tt

    Holds-SubjectRule :
        (t : Trace)
        → Holds (ReleaseRule w) t
        → Holds (RegisterRule w) t
        → Holds FreshRule t
        → Holds ReadRule t
        → Holds SubjectRule t
    Holds-SubjectRule [] release register fresh read = tt
    Holds-SubjectRule (e ∷ t) (r, release) (g, register) (f, fresh) (a, read) =
        (event-SubjectRule e t r g f read, Holds-SubjectRule t release register fresh read)

    module _
        (reads : (key : ObjectKey) (t : Trace) (s : Schema)
          → w.get_schema t key ≡ ok s
          → IsAdmitted key s) where
      get-ReadRule :
          (key : ObjectKey) (t : Trace) → ReadRule (got_schema key (w.get_schema t key)) t
      get-ReadRule key t = elim (Result-cases (w.get_schema t key)) [
        | inl (s, found) ↦ rw found (reads key t s found)
        | inr (e, failed) ↦ rw failed tt
      ]

      answered : IsAnswered w ReadRule
      answered = record {
        get = get-ReadRule;
        update = λ s t. tt;
        status = λ s t. tt;
        registry = λ key r t. tt;
        secret = λ key r t. tt;
        schemas = λ namespace r t. tt;
        registries = λ namespace r t. tt;
        registry_status = λ sr answer t. tt;
        request = λ client req r t. tt;
        clock = λ time t. tt;
      }

      -- Let each read of a schema give one with this key that the webhook has let through, from its
      -- creation on. Then in every history that the operator can reach, each POST sends a schema
      -- that was read with some key, where but for reads of registries and secrets the read is the
      -- event before it: its text, its type and its references, over the transport of a client, at
      -- the versions of the subject with which the schema with this key was created. And a schema
      -- is written without the finalizer only if it has the subject with which it was created, and
      -- either a client that was built for it has just deleted this subject, with the answer 404 or
      -- 200, or no client could be built for it.
      pub Reach-SubjectRule : {t : Trace} → Reach w t → Holds SubjectRule t
      Reach-SubjectRule {t} reached =
          let lawful = Reach-IsLawful w d reached in
          Holds-SubjectRule t lawful.release lawful.register lawful.fresh
            (Reach-Holds w answered reached)
