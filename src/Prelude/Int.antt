-- ===== src/Prelude/Int.antt =====
-- Go's `int` and `int64`: integers over the native numbers, and the wrap-around of 64 bits.
use Prim.Native.Nat.{ℕ, suc, ◌-◌, ◌*◌, ◌%◌, ◌^◌, ◌≤◌}
use mathlib.Core.Path.{◌≡◌}
use mathlib.Core.Logic.{◌↔◌}
use mathlib.Core.Bool.{Bool, true, false}
use native.Mathlib.Omega.{arith}
use schema_strimzi_operator.Prelude.Tests.{ltb, nat_beq, if◌then◌else◌, Comparable}

-- `negsuc n` is -(n + 1).
pub data ℤ : Type 0 where
  pos : ℕ → ℤ
  negsuc : ℕ → ℤ

abbrev pub int_beq : ℤ → ℤ → Bool
int_beq (pos a) (pos b) = nat_beq a b
int_beq (negsuc a) (negsuc b) = nat_beq a b
int_beq _ _ = false

pub int_beq_iff : (a b : ℤ) → (int_beq a b ≡ true) ↔ (a ≡ b)
int_beq_iff (pos a) (pos b) = ground arith
int_beq_iff (negsuc a) (negsuc b) = ground arith
int_beq_iff _ _ = ground arith

instance abbrev pub int_eq : Comparable ℤ
int_eq = record { same = int_beq; same_iff = int_beq_iff }

-- a < b for integers a and a natural number b.
abbrev pub below : ℤ → ℕ → Bool
below (pos a) b = ltb a b
below (negsuc a) b = true

-- The lower bound n ≤ a, as a statement.
abbrev pub AtLeast : ℕ → ℤ → Type 0
AtLeast n (pos a) = n ≤ a
AtLeast n (negsuc a) = ⊥

pub below-AtLeast : (a : ℤ) (n : ℕ) → (below a n ≡ false) ↔ AtLeast n a
below-AtLeast (pos a) n = ground arith
below-AtLeast (negsuc a) n = ground arith

-- The 64-bit value with the bits u, read as a signed number.
abbrev from_bits : ℕ → ℤ
from_bits u = if ltb u (2 ^ 63) then pos u else negsuc (2 ^ 64 - 1 - u)

-- a * k in `int64` arithmetic, for a factor k that is not negative: the product modulo 2^64.
unfoldable pub mul_int64 : ℤ → ℕ → ℤ
mul_int64 (pos a) k = from_bits (a * k % 2 ^ 64)
mul_int64 (negsuc a) k = from_bits ((2 ^ 64 - suc a * k % 2 ^ 64) % 2 ^ 64)
