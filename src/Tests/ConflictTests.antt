-- ===== src/Tests/ConflictTests.antt =====
-- A schema that someone else changes while the operator reconciles it.
use Prim.Native.String.{len}
use text.Mathlib.TextPositions.{len-append}
use schema_strimzi_operator.Prelude.{
  String, ◌+◌, ◌≤◌, true, false, Option, none, some, inl, inr, [], ◌∷◌, ◌++◌, ◌≡◌, refl, sym, ap,
  ◌∙◌, arith, ◌==◌, string_eq, eq_iff, ◌<>◌, if◌then◌else◌, Bool, Bool-cases,
}
use schema_strimzi_operator.Error.{Error, not_found, message, Result, ok, err}
use schema_strimzi_operator.Api.Meta.{ObjectKey}
use schema_strimzi_operator.Api.SchemaTypes.{Schema}
use schema_strimzi_operator.World.{
  World, Event, Trace, updated_schema, updated_schema_status, got_registry,
}
use schema_strimzi_operator.Controller.Effects.{key_of}
use schema_strimzi_operator.Controller.Keeps.{Holds}
use schema_strimzi_operator.Controller.Storage.{at_version, is_kept, is_kept-key_of}
use schema_strimzi_operator.Controller.SchemaController.{with_finalizers}
use schema_strimzi_operator.Controller.SchemaController.Conflicts.{IsVersioned, LossRule}
use schema_strimzi_operator.Manager.Setup.{setup_schema_reconciler}
use schema_strimzi_operator.Manager.Histories.{Reach, reconciles, nothing, later}
use schema_strimzi_operator.Manager.Updates.{Reach-LossRule}
use schema_strimzi_operator.Tests.Sample.{storing, storing-IsDocumented, schema}

-- Someone else writes a new text, whenever the operator has read a registry.
abbrev disturbed : Schema → Schema
disturbed s = record s { spec = record s.spec { schema = "\"string\"" } }

abbrev content : Trace → Schema
content [] = with_finalizers schema []
content (got_registry key r ∷ t) = disturbed (content t)
content (updated_schema x none ∷ t) = record x { status = (content t).status }
content (updated_schema_status x none ∷ t) = record (content t) { status = x.status }
content (_ ∷ t) = content t

abbrev changes_it : Event → Bool
changes_it (got_registry key r) = true
changes_it (updated_schema x none) = true
changes_it (updated_schema_status x none) = true
changes_it _ = false

abbrev stamp : Trace → String
stamp [] = "1"
stamp (e ∷ t) = let v = stamp t in if changes_it e then "1" <> v else v

abbrev unless_stale : Trace → Schema → Option Error
unless_stale t x =
    if x.metadata.resource_version == stamp t then none else some (message "conflict")

abbrev answer_present : Trace → ObjectKey → Result Schema
answer_present t key =
    if is_kept key (content t)
    then ok (at_version (stamp t) (content t))
    else err (not_found "schema")

abbrev shared : World
shared = storing answer_present unless_stale

stamp-grows :
    (e : Event) (t : Trace) → changes_it e ≡ true → len (stamp (e ∷ t)) ≡ len (stamp t) + 1
stamp-grows e t h = rw h (len-append "1" (stamp t) ∙ omega arith)

stamp-le : (since before : Trace) → len (stamp before) ≤ len (stamp (since ++ before))
stamp-le [] before = omega arith
stamp-le (e ∷ since) before = elim (Bool-cases (changes_it e)) [
  | inl changed ↦
      let grown = stamp-grows e (since ++ before) changed in
      let older = stamp-le since before in omega arith
  | inr kept ↦ rw kept (stamp-le since before)
]

-- An event that does not change the schema leaves what is stored.
content-kept : (e : Event) (t : Trace) → changes_it e ≡ false → content (e ∷ t) ≡ content t
content-kept e t kept = ground arith

content-stamp :
    (since before : Trace)
    → stamp (since ++ before) ≡ stamp before
    → content (since ++ before) ≡ content before
content-stamp [] before same = refl
content-stamp (e ∷ since) before same = elim (Bool-cases (changes_it e)) [
  | inl changed ↦
      let grown = stamp-grows e (since ++ before) changed in
      let older = stamp-le since before in let equal = ap len same in absurd (omega arith)
  | inr kept ↦ content-kept e (since ++ before) kept ∙ content-stamp since before (rw kept at same)
]

accepted :
    (t : Trace) (x : Schema) → unless_stale t x ≡ none → x.metadata.resource_version ≡ stamp t
accepted t x h = elim (Bool-cases (x.metadata.resource_version == stamp t)) [
  | inl same ↦ (eq_iff x.metadata.resource_version (stamp t)).0 same
  | inr other ↦ absurd (ground arith)
]

answered :
    (key : ObjectKey) (t : Trace) (s : Schema)
    → shared.get_schema t key ≡ ok s
    → (s ≡ at_version (stamp t) (content t)) × (key_of s.metadata ≡ key)
answered key t s found = elim (Bool-cases (is_kept key (content t))) [
  | inl kept ↦
      let same : at_version (stamp t) (content t) ≡ s = cc (rw kept at found) in
      (
        sym same,
        ap (λ (x : Schema). key_of x.metadata) (sym same) ∙ is_kept-key_of key (content t) kept,
      )
  | inr other ↦ absurd (cc (rw other at found))
]

shared-IsVersioned : IsVersioned (λ key t. content t) (λ key t. stamp t) shared
shared-IsVersioned = record {
  read = answered;
  update = accepted;
  update_status = accepted;
  unique = λ key. content-stamp;
}

-- The finalizer is added, then the schema is sent and its status written.
abbrev round : Trace
round = ((setup_schema_reconciler shared).reconcile (key_of schema.metadata) []).1

abbrev rounds : Trace
rounds = ((setup_schema_reconciler shared).reconcile (key_of schema.metadata) round).1

rounds-Reach : Reach shared rounds
rounds-Reach =
    later (later nothing (reconciles (key_of schema.metadata) (inl refl)))
      (reconciles (key_of schema.metadata) (inl refl))

Reach-LossRule_example : Holds (LossRule (λ key t. content t) (λ key t. stamp t)) rounds
Reach-LossRule_example =
    Reach-LossRule shared (λ key t. content t) (λ key t. stamp t) shared-IsVersioned {t = rounds}
      (storing-IsDocumented answer_present unless_stale) rounds-Reach
