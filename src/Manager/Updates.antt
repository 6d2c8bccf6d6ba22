-- ===== src/Manager/Updates.antt =====
-- No history of the operator loses a change that others have made to a schema.
use schema_strimzi_operator.Prelude.{String, inl, inr, Option-cases}
use schema_strimzi_operator.Error.{Result-cases}
use schema_strimzi_operator.Api.Meta.{ObjectKey}
use schema_strimzi_operator.Api.SchemaTypes.{Schema}
use schema_strimzi_operator.World.{
  World, IsDocumented, Trace, got_schema, updated_schema, updated_schema_status,
}
use schema_strimzi_operator.Controller.Keeps.{Holds}
use schema_strimzi_operator.Controller.SchemaController.Conflicts.{
  IsVersioned, AnswerRule, LossRule, Holds-LossRule,
}
use schema_strimzi_operator.Manager.Histories.{Reach, Reach-IsLawful}
use schema_strimzi_operator.Manager.Answers.{IsAnswered, Reach-Holds}

module _ (w : World) (stored : ObjectKey → Trace → Schema) (version : ObjectKey → Trace → String)
    (v : IsVersioned stored version w) where
  get-AnswerRule :
      (key : ObjectKey) (t : Trace)
      → AnswerRule stored version (got_schema key (w.get_schema t key)) t
  get-AnswerRule key t = elim (Result-cases (w.get_schema t key)) [
    | inl (s, found) ↦ rw found (v.read key t s found)
    | inr (e, failed) ↦ rw failed tt
  ]

  update-AnswerRule :
      (s : Schema) (t : Trace)
      → AnswerRule stored version (updated_schema s (w.update_schema t s)) t
  update-AnswerRule s t = elim (Option-cases (w.update_schema t s)) [
    | inl accepted ↦ rw accepted (v.update t s accepted)
    | inr (e, refused) ↦ rw refused tt
  ]

  status-AnswerRule :
      (s : Schema) (t : Trace)
      → AnswerRule stored version (updated_schema_status s (w.update_schema_status t s)) t
  status-AnswerRule s t = elim (Option-cases (w.update_schema_status t s)) [
    | inl accepted ↦ rw accepted (v.update_status t s accepted)
    | inr (e, refused) ↦ rw refused tt
  ]

  answered : IsAnswered w (AnswerRule stored version)
  answered = record {
    get = get-AnswerRule;
    update = update-AnswerRule;
    status = status-AnswerRule;
    registry = λ key r t. tt;
    secret = λ key r t. tt;
    schemas = λ namespace r t. tt;
    registries = λ namespace r t. tt;
    registry_status = λ sr answer t. tt;
    request = λ client req r t. tt;
    clock = λ time t. tt;
  }

  -- Let the API server keep schemas that others may change at any time, let each read give what is
  -- stored at that moment, and let an update be accepted only if it comes with the present version
  -- of what is stored. Then no history that the operator can reach loses a change of theirs: each
  -- update that is accepted sends what is stored at that moment, with other finalizers and nothing
  -- else changed, or with another status and nothing else changed.
  pub Reach-LossRule : {t : Trace} → IsDocumented w → Reach w t → Holds (LossRule stored version) t
  Reach-LossRule {t} d reached =
      Holds-LossRule stored version w v t (Reach-IsLawful w d reached).fresh
        (Reach-Holds w answered reached)
