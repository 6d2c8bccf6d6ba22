-- ===== src/Controller/Keeps.antt =====
-- Properties of the history that code keeps: one rule for each way to build a `Run` or a `Body`.
use schema_strimzi_operator.Prelude.{
  Bool, true, false, Option, none, some, [], ◌∷◌, ◌≡◌, refl, if◌then◌else◌,
}
use schema_strimzi_operator.Error.{Error, Result, ok, err}
use schema_strimzi_operator.World.{Event, Trace}
use schema_strimzi_operator.Exec.{
  Run, Body, Flow, returned, next, finish, give, perform, check, check_nil, pure, ◌>>=◌, ◌>>◌,
  proceed,
}

-- Whatever history with the property the code starts from, it ends in one.
pub record Keeps (I : Trace → Type 0) {A : Type 0} (m : Run A) : Type 0 where
  pub at : (t : Trace) → I t → I (m t).1

-- Each event is allowed after the events before it.
abbrev pub Holds : (Event → Trace → Type 0) → Trace → Type 0
Holds Allowed [] = Unit
Holds Allowed (e ∷ t) = Allowed e t × Holds Allowed t

module _ {I : Trace → Type 0} {A : Type 0} where
  pub Keeps-pure : (a : A) → Keeps I (pure a)
  unfolding pure
  Keeps-pure a = record { at = λ t h. h }

  pub Keeps-if :
      (b : Bool) (m n : Run A)
      → (b ≡ true → Keeps I m)
      → (b ≡ false → Keeps I n)
      → Keeps I (if b then m else n)
  Keeps-if true m n k l = k refl
  Keeps-if false m n k l = l refl

module _ {I : Trace → Type 0} {R A : Type 0} where
  pub Keeps-give : (r : R) → Keeps I (give {A = A} r)
  unfolding give
  Keeps-give r = record { at = λ t h. h }

  pub Keeps-perform : (m : Run A) → Keeps I m → Keeps I (perform {R = R} m)
  unfolding perform
  Keeps-perform m k = record { at = λ t h. k.at t h }

  pub Keeps-check :
      (r : Result A) (handler : Error → Run R)
      → ((e : Error) → r ≡ err e → Keeps I (handler e))
      → Keeps I (check r handler)
  unfolding check
  Keeps-check (ok a) handler k = record { at = λ t h. h }
  Keeps-check (err e) handler k = record { at = λ t h. (k e refl).at t h }

module _ {I : Trace → Type 0} {R : Type 0} where
  pub Keeps-check_nil :
      (o : Option Error) (handler : Error → Run R)
      → ((e : Error) → o ≡ some e → Keeps I (handler e))
      → Keeps I (check_nil o handler)
  unfolding check_nil
  Keeps-check_nil none handler k = record { at = λ t h. h }
  Keeps-check_nil (some e) handler k = record { at = λ t h. (k e refl).at t h }

  pub Keeps-finish : (m : Body R R) → Keeps I m → Keeps I (finish m)
  unfolding finish
  Keeps-finish m k = record { at = λ t h. k.at t h }

module _ {I : Trace → Type 0} {R A B : Type 0} where
  Keeps-proceed :
      (f : Flow R A) (k : A → Body R B) (t : Trace)
      → ((a : A) → Keeps I (k a))
      → I t
      → I (proceed f k t).1
  Keeps-proceed (returned r) k t kk h = h
  Keeps-proceed (next a) k t kk h = (kk a).at t h

  pub Keeps-bind :
      (m : Body R A) (k : A → Body R B) → Keeps I m → ((a : A) → Keeps I (k a)) → Keeps I (m >>= k)
  unfolding ◌>>=◌
  Keeps-bind m k km kk = record { at = λ t h. Keeps-proceed (m t).0 k (m t).1 kk (km.at t h) }

module _ {I : Trace → Type 0} {R B : Type 0} where
  pub Keeps-then : (m : Body R (Unit {0})) (k : Body R B) → Keeps I m → Keeps I k → Keeps I (m >> k)
  unfolding ◌>>◌
  Keeps-then m k km kk = Keeps-bind m (λ _. k) km (λ _. kk)

pub ruleset keeps_rules = (
  Keeps-pure, Keeps-give, Keeps-perform, Keeps-check, Keeps-check_nil, Keeps-if, Keeps-finish,
  Keeps-bind, Keeps-then,
)
