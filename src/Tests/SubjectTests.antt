-- ===== src/Tests/SubjectTests.antt =====
-- A schema that is created, changed and deleted under the eyes of the webhook.
use schema_strimzi_operator.Prelude.{
  Bool, false, Option, none, inl, inr, [], ◌∷◌, ◌≡◌, true, refl, if◌then◌else◌, Bool-cases,
}
use schema_strimzi_operator.Error.{Error, not_found, Result, ok, err}
use schema_strimzi_operator.Api.Meta.{ObjectKey}
use schema_strimzi_operator.Api.SchemaTypes.{Schema}
use schema_strimzi_operator.World.{World, Trace, updated_schema_status}
use schema_strimzi_operator.Webhook.SchemaWebhook.{validate_create, validate_update}
use schema_strimzi_operator.Webhook.SchemaRules.{Admitted, created, updated}
use schema_strimzi_operator.Controller.Effects.{key_of}
use schema_strimzi_operator.Controller.Keeps.{Holds}
use schema_strimzi_operator.Controller.Storage.{is_kept, is_kept-key_of}
use schema_strimzi_operator.Manager.Setup.{setup_schema_reconciler}
use schema_strimzi_operator.Manager.Histories.{Reach, reconciles, nothing, later}
use schema_strimzi_operator.Manager.Subjects.{IsAdmitted, SubjectRule, Reach-SubjectRule}
use schema_strimzi_operator.Tests.Sample.{storing, storing-IsDocumented, schema, dying}

-- The schema gets another text and is deleted, once its status has been written.
abbrev last : Schema
last = record dying { spec = record dying.spec { schema = "\"string\"" } }

abbrev is_written : Trace → Bool
is_written [] = false
is_written (updated_schema_status x none ∷ t) = true
is_written (_ ∷ t) = is_written t

abbrev present : Trace → Schema
present t = if is_written t then last else schema

abbrev answer_present : Trace → ObjectKey → Result Schema
answer_present t key = if is_kept key (present t) then ok (present t) else err (not_found "schema")

abbrev accept : Trace → Schema → Option Error
accept t x = none

abbrev living : World
living = storing answer_present accept

schema-accepted : validate_create living schema ≡ none
unfolding validate_create
schema-accepted = refl

last-accepted : validate_update living schema last ≡ none
unfolding validate_update
last-accepted = refl

present-Admitted : (t : Trace) → Admitted living schema (present t)
present-Admitted t = elim (Bool-cases (is_written t)) [
  | inl written ↦ rw written (updated last (created schema-accepted) last-accepted)
  | inr fresh ↦ rw fresh (created schema-accepted)
]

reads :
    (key : ObjectKey) (t : Trace) (s : Schema)
    → living.get_schema t key ≡ ok s
    → IsAdmitted living (λ key. schema) key s
reads key t s found = elim (Bool-cases (is_kept key (present t))) [
  | inl kept ↦
      let same : present t ≡ s = cc (rw kept at found) in
      (rw same at (is_kept-key_of key (present t) kept), rw same at (present-Admitted t))
  | inr other ↦ absurd (cc (rw other at found))
]

-- The schema is registered, and then deleted in the registry and given up.
abbrev registered : Trace
registered = ((setup_schema_reconciler living).reconcile (key_of schema.metadata) []).1

abbrev removed : Trace
removed = ((setup_schema_reconciler living).reconcile (key_of schema.metadata) registered).1

removed-Reach : Reach living removed
removed-Reach =
    later (later nothing (reconciles (key_of schema.metadata) (inl refl)))
      (reconciles (key_of schema.metadata) (inl refl))

Reach-SubjectRule_example : Holds (SubjectRule living (λ key. schema)) removed
Reach-SubjectRule_example =
    Reach-SubjectRule living (λ key. schema) (storing-IsDocumented answer_present accept) reads
      {t = removed} removed-Reach
