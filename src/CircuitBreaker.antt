-- ===== src/CircuitBreaker.antt =====
-- crates/core/src/circuit_breaker.rs: the breaker of an adapter, which detects outages of the
-- provider. Its window and its cooldown are written out a second time in the source; the
-- simulation relates them to the breaker of exit orders.
pub mod Simulation
use trading_gateway.Base.{
  ℕ, ◌-◌, ◌<◌, String, ◌⧺◌, Bool, true, false, Option, none, some, List, [], ◌∷◌, ◌++◌, ltb, leb,
  length, if◌then◌else◌,
}
use trading_gateway.Models.Error.{GatewayError, provider_unavailable}

pub data CircuitState : Type 0 where
  closed opened : CircuitState

pub record AdapterBreaker : Type 0 where
  pub failure_threshold : ℕ
  pub failure_window : ℕ
  pub recent_failures : List ℕ
  pub state : CircuitState
  pub provider : String
  pub last_reset_at : Option ℕ
  pub reset_cooldown : ℕ

-- `AdapterCircuitBreaker::new`
unfoldable pub new : ℕ → ℕ → String → AdapterBreaker
new failure_threshold failure_window provider = record {
  failure_threshold = failure_threshold;
  failure_window = failure_window;
  recent_failures = [];
  state = closed;
  provider = provider;
  last_reset_at = none;
  reset_cooldown = 60000;
}

-- `while let Some(ts) = front()`: pop while the front is older than the window.
unfoldable pub pop_expired : ℕ → ℕ → List ℕ → List ℕ
pop_expired now window [] = []
pop_expired now window (ts ∷ rest) =
    let popped = pop_expired now window rest in if ltb window (now - ts) then popped else ts ∷ rest

unfoldable pub record_failure : ℕ → AdapterBreaker → AdapterBreaker
record_failure now b =
    let failures = pop_expired now b.failure_window b.recent_failures ++ now ∷ [] in
    if leb b.failure_threshold (length failures)
    then record b { recent_failures = failures; state = opened }
    else record b { recent_failures = failures }

unfoldable pub is_open : AdapterBreaker → Bool
is_open b = elim b.state [ opened ↦ true | closed ↦ false ]

-- `reset`; `false` stands for `Err`.
unfoldable pub reset : ℕ → AdapterBreaker → AdapterBreaker × Bool
reset now b =
    let cleared = record b { recent_failures = []; state = closed; last_reset_at = some now } in
    elim b.last_reset_at [
      | none ↦ (cleared, true)
      | some last ↦ if ltb (now - last) b.reset_cooldown then (b, false) else (cleared, true)
    ]

unfoldable pub failure_count : AdapterBreaker → ℕ
failure_count b = length b.recent_failures

unfoldable pub open_error : AdapterBreaker → GatewayError
open_error b = provider_unavailable (
    "Adapter circuit breaker open — "
    ⧺ (b.provider ⧺ " provider outage detected. Manual reset required."))

-- `CircuitBreakerSnapshot`
pub record Snapshot : Type 0 where
  pub state : String
  pub failure_count : ℕ

-- `CircuitBreakerSnapshot::from_adapter`
unfoldable pub from_adapter : AdapterBreaker → Snapshot
unfolding failure_count
from_adapter b = record {
  state = elim b.state [ closed ↦ "closed" | opened ↦ "open" ];
  failure_count = failure_count b;
}
