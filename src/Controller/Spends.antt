-- ===== src/Controller/Spends.antt =====
-- What code costs: a bound on what the events that it adds to a history add up to, one rule for each
-- way to build a `Run` or a `Body`.
use schema_strimzi_operator.Prelude.{
  ℕ, ◌+◌, ◌≤◌, Bool, true, false, Option, none, some, [], ◌∷◌, arith, if◌then◌else◌,
}
use schema_strimzi_operator.Error.{Error, Result, ok, err}
use schema_strimzi_operator.World.{Event, Trace}
use schema_strimzi_operator.Exec.{
  Run, Body, Flow, returned, next, finish, give, perform, check, check_nil, pure, ◌>>=◌, ◌>>◌,
  proceed,
}
use schema_strimzi_operator.Controller.Keeps.{Keeps}

abbrev pub total : (Event → ℕ) → Trace → ℕ
total cost [] = 0
total cost (e ∷ t) = cost e + total cost t

-- The code adds at most n.
pub record Spends (cost : Event → ℕ) (n : ℕ) {A : Type 0} (m : Run A) : Type 0 where
  pub at : (t : Trace) → total cost (m t).1 ≤ n + total cost t

module _ {cost : Event → ℕ} {A : Type 0} where
  pub Spends-pure : {n : ℕ} (a : A) → Spends cost n (pure a)
  unfolding pure
  Spends-pure a = record { at = λ t. omega arith }

  pub Spends-le : {n : ℕ} (more : ℕ) (m : Run A) → n ≤ more → Spends cost n m → Spends cost more m
  Spends-le more m le s = record { at = λ t. let h = s.at t in omega arith }

  pub Spends-if :
      {n : ℕ} (b : Bool) (m k : Run A)
      → Spends cost n m
      → Spends cost n k
      → Spends cost n (if b then m else k)
  Spends-if true m k s r = s
  Spends-if false m k s r = r

  -- Code that keeps every limit costs nothing.
  pub Spends-Keeps :
      (m : Run A) → ((limit : ℕ) → Keeps (λ t. total cost t ≤ limit) m) → Spends cost 0 m
  Spends-Keeps m k = record { at = λ t. (k (0 + total cost t)).at t (omega arith) }

module _ {cost : Event → ℕ} {R A : Type 0} where
  pub Spends-give : {n : ℕ} (r : R) → Spends cost n (give {A = A} r)
  unfolding give
  Spends-give r = record { at = λ t. omega arith }

  pub Spends-perform : {n : ℕ} (m : Run A) → Spends cost n m → Spends cost n (perform {R = R} m)
  unfolding perform
  Spends-perform m s = record { at = λ t. s.at t }

  pub Spends-check :
      {n : ℕ} (r : Result A) (handler : Error → Run R)
      → ((e : Error) → Spends cost n (handler e))
      → Spends cost n (check r handler)
  unfolding check
  Spends-check (ok a) handler s = record { at = λ t. omega arith }
  Spends-check (err e) handler s = record { at = λ t. (s e).at t }

module _ {cost : Event → ℕ} {R : Type 0} where
  pub Spends-finish : {n : ℕ} (m : Body R R) → Spends cost n m → Spends cost n (finish m)
  unfolding finish
  Spends-finish m s = record { at = λ t. s.at t }

module _ {cost : Event → ℕ} {R A B : Type 0} where
  Spends-proceed :
      {n : ℕ} {k : A → Body R B} (f : Flow R A) (t : Trace)
      → ((a : A) → Spends cost n (k a))
      → total cost (proceed f k t).1 ≤ n + total cost t
  Spends-proceed (returned r) t s = omega arith
  Spends-proceed (next a) t s = (s a).at t

  pub Spends-bind :
      {n l : ℕ} (m : Body R A) (k : A → Body R B)
      → Spends cost n m
      → ((a : A) → Spends cost l (k a))
      → Spends cost (n + l) (m >>= k)
  unfolding ◌>>=◌
  Spends-bind m k s r = record {
    at = λ t. let first = s.at t in let rest = Spends-proceed (m t).0 (m t).1 r in omega arith;
  }

  pub Spends-bind_free :
      {n : ℕ} (m : Body R A) (k : A → Body R B)
      → Spends cost 0 m
      → ((a : A) → Spends cost n (k a))
      → Spends cost n (m >>= k)
  Spends-bind_free {n} m k s r = Spends-le n (m >>= k) (omega arith) (Spends-bind m k s r)

  pub Spends-bind_last :
      {n : ℕ} (m : Body R A) (k : A → Body R B)
      → Spends cost n m
      → ((a : A) → Spends cost 0 (k a))
      → Spends cost n (m >>= k)
  Spends-bind_last {n} m k s r = Spends-le n (m >>= k) (omega arith) (Spends-bind m k s r)

  -- What handles an error takes the place of the rest.
  pub Spends-bind-check :
      {n : ℕ} (r : Result A) (handler : Error → Run R) (k : A → Body R B)
      → ((e : Error) → Spends cost n (handler e))
      → ((a : A) → Spends cost n (k a))
      → Spends cost n (check r handler >>= k)
  unfolding ◌>>=◌ check
  Spends-bind-check (ok a) handler k s l = record { at = λ t. (l a).at t }
  Spends-bind-check (err e) handler k s l = record { at = λ t. (s e).at t }

module _ {cost : Event → ℕ} {R B : Type 0} where
  pub Spends-then_last :
      {n : ℕ} (m : Body R (Unit {0})) (k : Body R B)
      → Spends cost n m
      → Spends cost 0 k
      → Spends cost n (m >> k)
  unfolding ◌>>◌
  Spends-then_last m k s r = Spends-bind_last m (λ _. k) s (λ _. r)

  pub Spends-then :
      {n l : ℕ} (m : Body R (Unit {0})) (k : Body R B)
      → Spends cost n m
      → Spends cost l k
      → Spends cost (n + l) (m >> k)
  unfolding ◌>>◌
  Spends-then m k s r = Spends-bind m (λ _. k) s (λ _. r)

  pub Spends-then-check_nil :
      {n : ℕ} (o : Option Error) (handler : Error → Run R) (k : Body R B)
      → ((e : Error) → Spends cost n (handler e))
      → Spends cost n k
      → Spends cost n (check_nil o handler >> k)
  unfolding ◌>>◌ ◌>>=◌ check_nil
  Spends-then-check_nil none handler k s l = record { at = λ t. l.at t }
  Spends-then-check_nil (some e) handler k s l = record { at = λ t. (s e).at t }

pub ruleset spends_rules = (
  Spends-pure, Spends-if, Spends-finish, Spends-give, Spends-perform, Spends-check,
  Spends-bind-check, Spends-then-check_nil, Spends-bind_free, Spends-bind_last, Spends-bind,
  Spends-then_last, Spends-then,
)
