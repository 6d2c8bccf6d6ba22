-- ===== src/Exec.antt =====
-- Code that makes effects and returns early. A function of the program is a `Run`: it takes the
-- history and gives its result with the longer history. Its body is a `do` block of `Body`s, each of
-- which goes on with a value or returns from the function.
use schema_strimzi_operator.Prelude.{Option, none, some}
use schema_strimzi_operator.Error.{Error, Result, ok, err}
use schema_strimzi_operator.World.{Trace}

abbrev pub Run {ℓ} : Type ℓ → Type ℓ
Run A = Trace → A × Trace

pub data Flow {ℓ κ} (R : Type ℓ) (A : Type κ) : Type (ℓ ⊔ κ) where
  returned : R → Flow R A
  next : A → Flow R A

abbrev pub Body {ℓ κ} : Type ℓ → Type κ → Type (ℓ ⊔ κ)
Body R A = Trace → Flow R A × Trace

module _ {ℓ κ μ} {R : Type ℓ} {A : Type κ} {B : Type μ} where
  abbrev pub proceed : Flow R A → (A → Body R B) → Body R B
  proceed (returned r) k t = (returned r, t)
  proceed (next a) k t = k a t

  infixl 5 ◌>>=◌
  unfoldable pub ◌>>=◌ : Body R A → (A → Body R B) → Body R B
  ◌>>=◌ m k t = let (flow, t') = m t in proceed flow k t'

module _ {ℓ κ} {R : Type ℓ} {B : Type κ} where
  infixl 5 ◌>>◌
  unfoldable pub ◌>>◌ : Body R (Unit {0}) → Body R B → Body R B
  unfolding ◌>>=◌
  m >> k = m >>= λ _. k

module _ {ℓ} {R : Type ℓ} where
  abbrev outcome : Flow R R → R
  outcome (returned r) = r
  outcome (next r) = r

  -- The function whose body this is.
  unfoldable pub finish : Body R R → Run R
  finish m t = let (flow, t') = m t in (outcome flow, t')

  -- `return r`
  unfoldable pub give {κ} : {A : Type κ} → R → Body R A
  give r t = (returned r, t)

module _ {ℓ κ} {R : Type ℓ} {A : Type κ} where
  -- A call.
  unfoldable pub perform : Run A → Body R A
  perform m t = let (a, t') = m t in (next a, t')

  -- `if err != nil { return … }` after a call that gives a value or an error.
  unfoldable pub check : Result A → (Error → Run R) → Body R A
  check (ok a) handler t = (next a, t)
  check (err e) handler t = let (r, t') = handler e t in (returned r, t')

-- The same after a call that gives an error alone.
unfoldable pub check_nil {ℓ} : {R : Type ℓ} → Option Error → (Error → Run R) → Body R (Unit {0})
check_nil none handler t = (next tt, t)
check_nil (some e) handler t = let (r, t') = handler e t in (returned r, t')

-- A result without effects.
unfoldable pub pure {ℓ} : {A : Type ℓ} → A → Run A
pure a t = (a, t)

-- What a function of the program is written with: to unfold such a function is to unfold all this.
unfoldable pub exec : Unit {0}
unfolding ◌>>=◌ ◌>>◌ finish give perform check check_nil pure
exec = tt
