-- ===== src/Prelude/Decimal.antt =====
-- `%d` of package fmt.
use Prim.Native.Nat.{ℕ, zero, suc, ◌+◌, ◌/◌, ◌%◌, ◌<◌}
use Prim.Native.String.{String, slice}
use mathlib.Core.Logic.{dite}
use mathlib.Core.WellFounded.{Acc}
use native.Mathlib.Omega.{arith}
use native.Mathlib.Decide.{dec_lt}
use schema_strimzi_operator.Prelude.Tests.{◌<>◌}
use schema_strimzi_operator.Prelude.Int.{ℤ, pos, negsuc}

Acc-below : (bound n : ℕ) → n < bound → Acc ◌<◌ n
Acc-below zero n h = elim h [ ]
Acc-below (suc bound) n h = Acc.intro n (λ m lt. Acc-below bound m (omega arith))

digit : ℕ → String
digit d = slice "0123456789" d (d + 1)

-- The digits of n, in front of those already made.
digits_onto : (n : ℕ) → Acc ◌<◌ n → String → String
unfolding digit
digits_onto n (Acc.intro _ smaller) done =
    dite (dec_lt n 10) (λ _. digit n <> done)
      (λ big. digits_onto (n / 10) (smaller (n / 10) (omega arith)) (digit (n % 10) <> done))

unfoldable pub decimal_nat : ℕ → String
unfolding digits_onto Acc-below dec_lt
decimal_nat n = digits_onto n (Acc-below (suc n) n (omega arith)) ""

unfoldable pub decimal : ℤ → String
unfolding decimal_nat
decimal (pos n) = decimal_nat n
decimal (negsuc n) = "-" <> decimal_nat (suc n)
