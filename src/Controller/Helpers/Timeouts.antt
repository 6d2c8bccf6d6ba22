-- ===== src/Controller/Helpers/Timeouts.antt =====
-- What the timeout of a registry comes to in nanoseconds.
use schema_strimzi_operator.Prelude.{
  ℕ, pos, ◌==◌, nat_eq, if◌then◌else◌, ◌≤◌, true, ◌≡◌, ◌*◌, ◌⊎◌, inl, inr, arith, mul_int64, below,
}
use native.Mathlib.Decide.{dec_le}
use schema_strimzi_operator.Controller.Effects.{second}
use schema_strimzi_operator.Controller.Helpers.{request_timeout}

request_timeout_exact :
    (n : ℕ) → n ≤ 9223372036 → request_timeout (pos n) ≡ pos ((if n == 0 then 30 else n) * second)
unfolding request_timeout mul_int64
request_timeout_exact n fits = ground arith

request_timeout_wraps :
    (n : ℕ) → 9223372037 ≤ n → n ≤ 18446744073 → below (request_timeout (pos n)) 0 ≡ true
unfolding request_timeout mul_int64
request_timeout_wraps n low high = ground arith

-- Up to 18446744073 seconds, the timeout is the given one, or 30 seconds where 0 is given, if there
-- are at most the 9223372036 seconds that a `time.Duration` holds, and negative if there are more.
pub request_timeout_cases :
    (n : ℕ)
    → n ≤ 18446744073
    → ((n ≤ 9223372036) × (request_timeout (pos n) ≡ pos ((if n == 0 then 30 else n) * second)))
      ⊎ ((9223372037 ≤ n) × (below (request_timeout (pos n)) 0 ≡ true))
request_timeout_cases n high = elim (dec_le n 9223372036) [
  | yes fits ↦ inl (fits, request_timeout_exact n fits)
  | no over ↦ inr (omega arith, request_timeout_wraps n (omega arith) high)
]
