-- ===== src/Controller/SchemaController/Conflicts.antt =====
-- What becomes of changes that others make to a schema between a read and an update.
use schema_strimzi_operator.Prelude.{String, some, none, [], ◌∷◌, ◌++◌, ◌≡◌, refl, sym, ap, ◌∙◌}
use mathlib.Core.Path.{subst}
use schema_strimzi_operator.Error.{ok, err}
use schema_strimzi_operator.Api.Meta.{ObjectKey}
use schema_strimzi_operator.Api.SchemaTypes.{Schema}
use schema_strimzi_operator.World.{
  World, Event, Trace, got_schema, got_registry, got_secret, listed_schemas, listed_registries,
  updated_schema, updated_schema_status, updated_registry_status, sent, read_clock,
}
use schema_strimzi_operator.Controller.Effects.{key_of}
use schema_strimzi_operator.Controller.Keeps.{Holds}
use schema_strimzi_operator.Controller.Storage.{at_version}
use schema_strimzi_operator.Controller.SchemaController.{with_finalizers}
use schema_strimzi_operator.Controller.SchemaController.Freshness.{latest, just_read, FreshRule}

-- The schema with a key that the server stores when the operator has come to a history, and its
-- resource version. Both may change between two effects of the operator, since others change schemas.
module _ (stored : ObjectKey → Trace → Schema) (version : ObjectKey → Trace → String) where
  abbrev pub current : ObjectKey → Trace → Schema
  current key t = at_version (version key t) (stored key t)

  -- What the documentation of the API server says. A read gives what is stored, with its version:
  -- the operator reads through a cache, which is taken to be up to date. An update of a custom
  -- resource is accepted only if it comes with the version of what is stored. As long as the
  -- version stays, the content does.
  pub record IsVersioned (w : World) : Type 0 where
    pub read :
        (key : ObjectKey) (t : Trace) (s : Schema)
        → w.get_schema t key ≡ ok s
        → (s ≡ current key t) × (key_of s.metadata ≡ key)
    pub update :
        (t : Trace) (x : Schema)
        → w.update_schema t x ≡ none
        → x.metadata.resource_version ≡ version (key_of x.metadata) t
    pub update_status :
        (t : Trace) (x : Schema)
        → w.update_schema_status t x ≡ none
        → x.metadata.resource_version ≡ version (key_of x.metadata) t
    pub unique :
        (key : ObjectKey) (since before : Trace)
        → version key (since ++ before) ≡ version key before
        → stored key (since ++ before) ≡ stored key before

  -- An answer is one that the server gives.
  abbrev pub AnswerRule : Event → Trace → Type 0
  AnswerRule (got_schema key (ok s)) t = (s ≡ current key t) × (key_of s.metadata ≡ key)
  AnswerRule (updated_schema x none) t = x.metadata.resource_version ≡ version (key_of x.metadata) t
  AnswerRule (updated_schema_status x none) t =
      x.metadata.resource_version ≡ version (key_of x.metadata) t
  AnswerRule _ t = Unit

  -- An accepted update is what is stored at that moment with other finalizers, or with another
  -- status, and nothing else changed.
  abbrev pub LossRule : Event → Trace → Type 0
  LossRule (updated_schema x none) t =
      x ≡ with_finalizers (current (key_of x.metadata) t) x.metadata.finalizers
  LossRule (updated_schema_status x none) t =
      x ≡ record (current (key_of x.metadata) t) { status = x.status }
  LossRule _ t = Unit

  -- A schema that was read was stored at some point of the history.
  abbrev WasStored : Schema → Trace → Type 0
  WasStored s t =
      (since before : Trace) × (t ≡ since ++ before) × (s ≡ current (key_of s.metadata) before)

  WasStored-later : (e : Event) (s : Schema) (t : Trace) → WasStored s t → WasStored s (e ∷ t)
  WasStored-later e s t (since, before, split, is) = (e ∷ since, before, ap (λ t. e ∷ t) split, is)

  latest-WasStored :
      (t : Trace) (s : Schema) → latest t ≡ some s → Holds AnswerRule t → WasStored s t
  latest-WasStored [] s e h = absurd (cc e)
  latest-WasStored (got_schema key (ok r) ∷ t) s e ((is, named), h) =
      let same : r ≡ s = cc e in
      subst (λ s. WasStored s (got_schema key (ok r) ∷ t)) same
        (got_schema key (ok r) ∷ [], t, refl, rw named is)
  latest-WasStored (got_schema key (err f) ∷ t) s e (a, h) =
      WasStored-later (got_schema key (err f)) s t (latest-WasStored t s e h)
  latest-WasStored (got_registry key r ∷ t) s e (a, h) =
      WasStored-later (got_registry key r) s t (latest-WasStored t s e h)
  latest-WasStored (got_secret key r ∷ t) s e (a, h) =
      WasStored-later (got_secret key r) s t (latest-WasStored t s e h)
  latest-WasStored (listed_schemas namespace r ∷ t) s e (a, h) =
      WasStored-later (listed_schemas namespace r) s t (latest-WasStored t s e h)
  latest-WasStored (listed_registries namespace r ∷ t) s e (a, h) =
      WasStored-later (listed_registries namespace r) s t (latest-WasStored t s e h)
  latest-WasStored (updated_schema x r ∷ t) s e (a, h) =
      WasStored-later (updated_schema x r) s t (latest-WasStored t s e h)
  latest-WasStored (updated_schema_status x r ∷ t) s e (a, h) =
      WasStored-later (updated_schema_status x r) s t (latest-WasStored t s e h)
  latest-WasStored (updated_registry_status x r ∷ t) s e (a, h) =
      WasStored-later (updated_registry_status x r) s t (latest-WasStored t s e h)
  latest-WasStored (sent client req r ∷ t) s e (a, h) =
      WasStored-later (sent client req r) s t (latest-WasStored t s e h)
  latest-WasStored (read_clock time ∷ t) s e (a, h) =
      WasStored-later (read_clock time) s t (latest-WasStored t s e h)

  just_read-latest : (t : Trace) (s : Schema) → just_read t ≡ some s → latest t ≡ some s
  just_read-latest [] s e = e
  just_read-latest (got_schema key (ok r) ∷ t) s e = e
  just_read-latest (read_clock time ∷ t) s e = just_read-latest t s e
  just_read-latest (got_schema key (err f) ∷ t) s e = absurd (cc e)
  just_read-latest (got_registry key r ∷ t) s e = absurd (cc e)
  just_read-latest (got_secret key r ∷ t) s e = absurd (cc e)
  just_read-latest (listed_schemas namespace r ∷ t) s e = absurd (cc e)
  just_read-latest (listed_registries namespace r ∷ t) s e = absurd (cc e)
  just_read-latest (updated_schema x r ∷ t) s e = absurd (cc e)
  just_read-latest (updated_schema_status x r ∷ t) s e = absurd (cc e)
  just_read-latest (updated_registry_status x r ∷ t) s e = absurd (cc e)
  just_read-latest (sent client req r ∷ t) s e = absurd (cc e)

  module _ (w : World) (v : IsVersioned w) where
    -- What was stored at some point, and has the present version, is stored now.
    WasStored-current :
        (s : Schema) (t : Trace)
        → WasStored s t
        → s.metadata.resource_version ≡ version (key_of s.metadata) t
        → s ≡ current (key_of s.metadata) t
    WasStored-current s t (since, before, split, is) fits =
        let key = key_of s.metadata in
        let same : version key (since ++ before) ≡ version key before =
          ap (version key) (sym split) ∙ sym fits ∙ ap (λ x. x.metadata.resource_version) is in
        is ∙ rw (split, same, v.unique key since before same) refl

    event-LossRule :
        (e : Event) (t : Trace) → FreshRule e t → AnswerRule e t → Holds AnswerRule t → LossRule e t
    event-LossRule (updated_schema x none) t (read, l, same) fits h =
        let key : key_of x.metadata ≡ key_of read.metadata = ap (λ y. key_of y.metadata) same in
        let known =
          WasStored-current read t (latest-WasStored t read l h)
            (sym (ap (λ y. y.metadata.resource_version) same) ∙ fits ∙ ap (λ k. version k t) key) in
        same
        ∙ ap (λ y. with_finalizers y x.metadata.finalizers)
            (known ∙ ap (λ k. current k t) (sym key))
    event-LossRule (updated_schema_status x none) t (read, l, same) fits h =
        let key : key_of x.metadata ≡ key_of read.metadata = ap (λ y. key_of y.metadata) same in
        let known =
          WasStored-current read t (latest-WasStored t read (just_read-latest t read l) h)
            (sym (ap (λ y. y.metadata.resource_version) same) ∙ fits ∙ ap (λ k. version k t) key) in
        same
        ∙ ap (λ (y : Schema). record y { status = x.status })
            (known ∙ ap (λ k. current k t) (sym key))
    event-LossRule (updated_schema x (some r)) t f a h = tt
    event-LossRule (updated_schema_status x (some r)) t f a h = tt
    event-LossRule (got_schema key r) t f a h = tt
    event-LossRule (got_registry key r) t f a h = tt
    event-LossRule (got_secret key r) t f a h = tt
    event-LossRule (listed_schemas namespace r) t f a h = tt
    event-LossRule (listed_registries namespace r) t f a h = tt
    event-LossRule (updated_registry_status x r) t f a h = tt
    event-LossRule (sent client req r) t f a h = tt
    event-LossRule (read_clock time) t f a h = tt

    -- A history with fresh updates and answers of the server loses nothing.
    pub Holds-LossRule : (t : Trace) → Holds FreshRule t → Holds AnswerRule t → Holds LossRule t
    Holds-LossRule [] f a = tt
    Holds-LossRule (e ∷ t) (fresh, f) (answer, a) =
        (event-LossRule e t fresh answer a, Holds-LossRule t f a)
