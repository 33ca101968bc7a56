-- ===== src/Reconnection/Backoff.antt =====
-- Bounds of the backoff (crates/core/src/websocket/reconnection.rs).
use native.Mathlib.Numerals.{unary_clauses}
use trading_gateway.Base.{
  leb, min, ◌*◌, ◌^◌, zero, ℕ, suc, ◌+◌, ◌/◌, ◌%◌, ◌≤◌, ◌<◌, max, true, false, some, ◌≡◌, arith,
  Bool-cases, inl, inr,
}
use trading_gateway.Reconnection.{
  u64_max, ReconnectionConfig, ReconnectionHandler, capped_backoff, jitter, next_backoff, exceeded,
  is_retrying,
}

mod_below : (n k : ℕ) → 0 < k → n % k < k
mod_below n zero pos = omega (arith, pos)
mod_below n (suc k) pos = omega arith

jitter-le : (nanos capped : ℕ) → jitter nanos capped ≤ capped / 4
unfolding jitter
jitter-le nanos capped = ground (arith, mod_below nanos (max (capped / 4) 1))

capped-le :
    (config : ReconnectionConfig) (attempt : ℕ) → capped_backoff config attempt ≤ config.max_backoff
unfolding capped_backoff
capped-le config attempt = ground arith

-- The delay without jitter: doubled with each attempt, six times at most, and at most the maximum.
abbrev pub plain_backoff : ReconnectionConfig → ℕ → ℕ
plain_backoff config attempt = min (config.initial_backoff * 2 ^ min attempt 6) config.max_backoff

at_least : (n q : ℕ) → n ≤ n * suc q
at_least n q = simp unary_clauses (omega arith)

power_pos : (n : ℕ) → 1 ≤ 2 ^ n
power_pos zero = omega arith
power_pos (suc n) = simp unary_clauses (omega (arith, power_pos n))

saturated :
    (initial p most : ℕ)
    → 1 ≤ p
    → most ≤ u64_max
    → min (min (min initial u64_max * p) u64_max) (min most u64_max) ≡ min (initial * p) most
saturated initial zero most pos fits = absurd (omega (arith, pos))
saturated initial (suc q) most pos fits = elim (Bool-cases (leb initial u64_max)) [
  | inl small ↦
      let is : min initial u64_max ≡ initial = ground arith in rw (is) (omega (arith, fits))
  | inr large ↦
      let is : min initial u64_max ≡ u64_max = ground arith in
      let grows : initial ≤ initial * suc q = at_least initial q in
      rw (is) (ground (arith, fits, grows))
]

capped-plain :
    (config : ReconnectionConfig) (attempt : ℕ)
    → config.max_backoff ≤ u64_max
    → capped_backoff config attempt ≡ plain_backoff config attempt
unfolding capped_backoff
capped-plain config attempt fits =
    saturated config.initial_backoff (2 ^ min attempt 6) config.max_backoff
      (power_pos (min attempt 6)) fits

-- Where the maximum and a quarter of it fit into 64 bits, a backoff is handed out only while retrying
-- and before the retry duration is exceeded. It is at least the initial delay, doubled with each
-- attempt up to the sixth, or the maximum, if that is less; it exceeds this by at most a quarter; and
-- one more attempt is counted.
pub next_backoff-bounds :
    (now nanos : ℕ) (r r' : ReconnectionHandler) (delay : ℕ)
    → r.config.max_backoff + r.config.max_backoff / 4 ≤ u64_max
    → next_backoff now nanos r ≡ (some delay, r')
    → (is_retrying r.state ≡ true)
      × (exceeded now r.config r.disconnected_at ≡ false)
      × (plain_backoff r.config r.attempt_count ≤ delay)
      × (delay
          ≤ plain_backoff r.config r.attempt_count + plain_backoff r.config r.attempt_count / 4)
      × (r'.attempt_count ≡ r.attempt_count + 1)
unfolding next_backoff
next_backoff-bounds now nanos r r' delay fits e =
    let capped = capped_backoff r.config r.attempt_count in
    let plain = plain_backoff r.config r.attempt_count in
    let same : capped ≡ plain = capped-plain r.config r.attempt_count (omega (arith, fits)) in
    let below : capped ≤ r.config.max_backoff = capped-le r.config r.attempt_count in
    let small : jitter nanos capped ≤ capped / 4 = jitter-le nanos capped in
    let unwrapped : (capped + jitter nanos capped) % 2 ^ 64 ≡ capped + jitter nanos capped =
      omega (arith, small, below, fits) in
    elim (Bool-cases (is_retrying r.state)) [
      | inr n ↦ ground arith
      | inl y ↦ elim (Bool-cases (exceeded now r.config r.disconnected_at)) [
        | inl x ↦ ground arith
        | inr x ↦ ground (arith, small, below, unwrapped, same)
      ]
    ]
