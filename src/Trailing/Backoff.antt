-- ===== src/Trailing/Backoff.antt =====
-- The waiting times between the attempts to recover an entry (`calculate_recovery_backoff` of
-- crates/core/src/trailing_stop/handler.rs).
use trading_gateway.Trailing.Recovery.{duration_max}
use trading_gateway.Base.{◌^◌}
use trading_gateway.Base.{
  ℕ, zero, suc, ◌+◌, ◌*◌, ◌≤◌, ltb, option_eq, string_eq, nat_eq, ◌≡◌, inl, inr, arith, Bool-cases,
  min,
}
use trading_gateway.Trailing.Recovery.{calculate_recovery_backoff}

mul_mono : (k x y : ℕ) → x ≤ y → k * x ≤ k * y
mul_mono zero x y p = omega arith
mul_mono (suc k) x y p = omega (arith, mul_mono k x y p, p)

power_step : (n : ℕ) → 2 ^ min n 20 ≤ 2 ^ min (n + 1) 20
power_step n = elim (Bool-cases (ltb n 20)) [
  | inl below ↦
      let now : min n 20 ≡ n = ground arith in
      let next : min (n + 1) 20 ≡ suc n = ground arith in
      rw (now, next) (omega (arith, native.Mathlib.Nat.pow-suc 2 n))
  | inr above ↦
      let now : min n 20 ≡ 20 = ground arith in
      let next : min (n + 1) 20 ≡ 20 = ground arith in rw (now, next) (omega arith)
]

backoff_formula :
    (interval longest n : ℕ)
    → longest ≤ duration_max
    → calculate_recovery_backoff interval longest (n + 1) ≡ min (interval * 2 ^ min n 20) longest
unfolding calculate_recovery_backoff
backoff_formula interval longest n h = ground arith

-- For a longest backoff that fits into a duration: an entry that has not failed is retried at once;
-- after `n + 1` failures the wait is the interval times `2 ^ n`, with `n` capped at 20, or the
-- longest backoff if that is shorter; one more failure never makes the wait shorter.
pub calculate_recovery_backoff-laws :
    (interval longest n : ℕ)
    → longest ≤ duration_max
    → (calculate_recovery_backoff interval longest 0 ≡ 0)
      × (calculate_recovery_backoff interval longest (n + 1)
          ≡ min (interval * 2 ^ min n 20) longest)
      × (calculate_recovery_backoff interval longest (n + 1)
          ≤ calculate_recovery_backoff interval longest (n + 2))
unfolding calculate_recovery_backoff
calculate_recovery_backoff-laws interval longest n h = (
  λ i. 0,
  backoff_formula interval longest n h,
  grind (
    arith,
    backoff_formula interval longest n h,
    backoff_formula interval longest (n + 1) h,
    mul_mono interval (2 ^ min n 20) (2 ^ min (n + 1) 20) (power_step n),
  ),
)
