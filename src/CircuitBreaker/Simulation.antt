-- ===== src/CircuitBreaker/Simulation.antt =====
-- The breaker of adapters (crates/core/src/circuit_breaker.rs) simulates the breaker of exit orders
-- (crates/core/src/exit_management/circuit_breaker.rs), and so has its properties.
use trading_gateway.Base.{ℕ, String, List, [], ◌∷◌, ◌≡◌, refl, arith, ap, ◌∙◌}
use trading_gateway.Exit.Breaker
use trading_gateway.Exit.Breaker.{Breaker}
use trading_gateway.Exit.Breaker.Window.{IsTimeline, trips, record_all, record_all-new_opens_iff}
use trading_gateway.CircuitBreaker.{
  AdapterBreaker, CircuitState, closed, opened, new, pop_expired, record_failure, is_open, reset,
}

abbrev forget_state : CircuitState → Breaker.CircuitState
forget_state closed = Breaker.CircuitState.closed
forget_state opened = Breaker.CircuitState.opened

-- The adapter's breaker without the provider's name.
unfoldable pub forget : AdapterBreaker → Breaker
forget b = record {
  failure_threshold = b.failure_threshold;
  failure_window = b.failure_window;
  recent_failures = b.recent_failures;
  state = forget_state b.state;
  last_reset_at = b.last_reset_at;
  reset_cooldown = b.reset_cooldown;
}

pop_expired-prune :
    (now window : ℕ) (ts : List ℕ) → pop_expired now window ts ≡ Breaker.prune now window ts
unfolding pop_expired Breaker.prune
pop_expired-prune now window [] = refl
pop_expired-prune now window (t ∷ ts) = ground (arith, pop_expired-prune now window ts)

-- Recording a failure, resetting, and being open are the same for the breaker of an adapter as
-- for the breaker of exit orders on the same fields.
adapter_breaker_simulates :
    (b : AdapterBreaker) (now : ℕ)
    → (forget (record_failure now b) ≡ Breaker.record_failure now (forget b))
      × (forget (reset now b).0 ≡ (Breaker.reset now (forget b)).0)
      × ((reset now b).1 ≡ (Breaker.reset now (forget b)).1)
      × (is_open b ≡ Breaker.is_open (forget b))
unfolding forget record_failure Breaker.record_failure reset Breaker.reset is_open Breaker.is_open
adapter_breaker_simulates b now =
    let e = pop_expired-prune now b.failure_window b.recent_failures in
    (ground (arith, e), ground arith, ground arith, ground arith)

unfoldable pub record_all_adapter : List ℕ → AdapterBreaker → AdapterBreaker
record_all_adapter [] b = b
record_all_adapter (t ∷ ts) b = record_all_adapter ts (record_failure t b)

forget-record_all :
    (ts : List ℕ) (b : AdapterBreaker) → forget (record_all_adapter ts b) ≡ record_all ts (forget b)
unfolding record_all_adapter record_all
forget-record_all [] b = refl
forget-record_all (t ∷ ts) b =
    forget-record_all ts (record_failure t b) ∙ ap (record_all ts) (adapter_breaker_simulates b t).0

-- After outage failures at times in order, a new adapter breaker is open exactly if the sliding
-- window held, at one of the failures, at least the threshold of them.
pub adapter_breaker_opens_iff :
    (threshold window : ℕ) (provider : String) (ts : List ℕ)
    → IsTimeline 0 ts
    → is_open (record_all_adapter ts (new threshold window provider)) ≡ trips threshold window [] ts
unfolding forget new Breaker.new
adapter_breaker_opens_iff threshold window provider ts line =
    let b = new threshold window provider in
    (adapter_breaker_simulates (record_all_adapter ts b) 0).3
    ∙ ap Breaker.is_open (forget-record_all ts b)
    ∙ record_all-new_opens_iff threshold window ts line
