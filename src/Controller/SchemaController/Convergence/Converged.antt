-- ===== src/Controller/SchemaController/Convergence/Converged.antt =====
-- The schema that the reconciler works towards.
use schema_strimzi_operator.Prelude.{ℕ, zero, suc, ℤ, true, some, [], ◌≡◌, refl, ap, ◌∙◌}
use schema_strimzi_operator.Api.Meta.{ObjectKey, Condition, condition_true, find_condition, is_zero}
use schema_strimzi_operator.Api.SchemaTypes.{Schema}
use schema_strimzi_operator.World.{World, Trace}
use schema_strimzi_operator.Controller.Effects.{key_of}
use schema_strimzi_operator.Controller.SchemaController.{schema_finalizer, registry_key, reconcile}

-- The status of a registration is in place: the id, the present generation and the condition.
pub record IsRegistered (id : ℤ) (s : Schema) : Type 0 where
  pub same_id : s.status.schema_id ≡ some id
  pub observed : s.status.observed_generation ≡ s.metadata.generation
  pub ready :
      (c : Condition) × (find_condition "Ready" s.status.conditions ≡ some c)
      × (c.status ≡ condition_true)

-- What has become of the schema: it has the finalizer and a registration of its present generation,
-- and is what it was in all else that counts.
pub record IsConverged (w : World) (id : ℤ) (before s : Schema) : Type 0 where
  pub finalizer : w.contains_finalizer s.metadata.finalizers schema_finalizer ≡ true
  pub registered : IsRegistered id s
  pub same_key : key_of s.metadata ≡ key_of before.metadata
  pub same_spec : s.spec ≡ before.spec
  pub same_generation : s.metadata.generation ≡ before.metadata.generation
  pub live : is_zero s.metadata.deletion_timestamp ≡ true

pub IsConverged-trans :
    (w : World) (id : ℤ) (a b c : Schema)
    → IsConverged w id a b
    → IsConverged w id b c
    → IsConverged w id a c
IsConverged-trans w id a b c f g = record {
  finalizer = g.finalizer;
  registered = g.registered;
  same_key = g.same_key ∙ f.same_key;
  same_spec = g.same_spec ∙ f.same_spec;
  same_generation = g.same_generation ∙ f.same_generation;
  live = g.live;
}

-- The history after a number of rounds, one after the other, from the empty history.
abbrev pub rounds : World → ObjectKey → ℕ → Trace
rounds w key zero = []
rounds w key (suc n) = (reconcile w key (rounds w key n)).1

pub registry_key-ext :
    (s before : Schema)
    → key_of s.metadata ≡ key_of before.metadata
    → s.spec ≡ before.spec
    → registry_key s ≡ registry_key before
unfolding registry_key
registry_key-ext s before same_key same_spec = rw (ap (λ k. k.namespace) same_key, same_spec) refl
