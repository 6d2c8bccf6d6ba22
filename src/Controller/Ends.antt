-- ===== src/Controller/Ends.antt =====
-- What holds where code returns, of its result and the history: one rule for each way to build it.
use schema_strimzi_operator.Prelude.{◌≡◌, refl}
use schema_strimzi_operator.Error.{Error, Result, ok, err}
use schema_strimzi_operator.World.{Trace}
use schema_strimzi_operator.Exec.{
  Run, Body, Flow, returned, next, proceed, finish, perform, check, ◌>>=◌, ◌>>◌,
}

-- Code that goes on is not judged yet.
abbrev pub Allows : {R A : Type 0} → (R → Trace → Type 0) → Flow R A → Trace → Type 0
Allows Q (returned r) t = Q r t
Allows Q (next a) t = Unit

-- A part of a body, which may return early.
pub record Leaves {R : Type 0} (Q : R → Trace → Type 0) {A : Type 0} (m : Body R A) : Type 0 where
  pub at : (t : Trace) → Allows Q (m t).0 (m t).1

-- The rest of a body, which returns in any case.
pub record Ends {R : Type 0} (Q : R → Trace → Type 0) (m : Body R R) : Type 0 where
  pub at : (t : Trace) → Q (finish m t).0 (finish m t).1

module _ {R : Type 0} {Q : R → Trace → Type 0} where
  pub Leaves-perform : {A : Type 0} (m : Run A) → Leaves Q (perform m)
  unfolding perform
  Leaves-perform m = record { at = λ t. tt }

  pub Leaves-check :
      {A : Type 0} (r : Result A) (handler : Error → Run R)
      → ((e : Error) → r ≡ err e → (t : Trace) → Q (handler e t).0 (handler e t).1)
      → Leaves Q (check r handler)
  unfolding check
  Leaves-check (ok a) handler k = record { at = λ t. tt }
  Leaves-check (err e) handler k = record { at = k e refl }

  pub Ends-proceed :
      {A : Type 0} (flow : Flow R A) (k : A → Body R R) (t : Trace)
      → Allows Q flow t
      → ((a : A) → Ends Q (k a))
      → Q (finish (proceed flow k) t).0 (finish (proceed flow k) t).1
  unfolding finish
  Ends-proceed (returned r) k t h kk = h
  Ends-proceed (next a) k t h kk = (kk a).at t

  pub Ends-bind :
      {A : Type 0} (m : Body R A) (k : A → Body R R)
      → Leaves Q m
      → ((a : A) → Ends Q (k a))
      → Ends Q (m >>= k)
  unfolding ◌>>=◌ finish
  Ends-bind m k km kk = record { at = λ t. Ends-proceed (m t).0 k (m t).1 (km.at t) kk }

  pub Ends-then : (m : Body R (Unit {0})) (k : Body R R) → Leaves Q m → Ends Q k → Ends Q (m >> k)
  unfolding ◌>>◌
  Ends-then m k km kk = Ends-bind m (λ _. k) km (λ _. kk)

pub ruleset ends_rules = (Leaves-perform, Leaves-check, Ends-bind, Ends-then)
