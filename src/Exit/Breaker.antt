-- ===== src/Exit/Breaker.antt =====
-- crates/core/src/exit_management/circuit_breaker.rs: the breaker that halts new exit orders after
-- repeated placement failures. Instants are numbers of milliseconds, handed to each operation; the
-- head of `recent_failures` is the front of the deque.
pub mod Window
use trading_gateway.Base.{
  ℕ, ◌-◌, Bool, true, false, Option, none, some, List, [], ◌∷◌, ◌++◌, ltb, leb, length,
  if◌then◌else◌,
}

pub data CircuitState : Type 0 where
  closed opened : CircuitState

pub record Breaker : Type 0 where
  pub failure_threshold : ℕ
  pub failure_window : ℕ
  pub recent_failures : List ℕ
  pub state : CircuitState
  pub last_reset_at : Option ℕ
  pub reset_cooldown : ℕ

-- `ExitOrderCircuitBreaker::new`
unfoldable pub new : ℕ → ℕ → Breaker
new failure_threshold failure_window = record {
  failure_threshold = failure_threshold;
  failure_window = failure_window;
  recent_failures = [];
  state = closed;
  last_reset_at = none;
  reset_cooldown = 60000;
}

-- The loop that pops the failures older than the window off the front.
unfoldable pub prune : ℕ → ℕ → List ℕ → List ℕ
prune now window [] = []
prune now window (ts ∷ rest) =
    let popped = prune now window rest in if ltb window (now - ts) then popped else ts ∷ rest

unfoldable pub record_failure : ℕ → Breaker → Breaker
record_failure now b =
    let failures = prune now b.failure_window b.recent_failures ++ now ∷ [] in
    if leb b.failure_threshold (length failures)
    then record b { recent_failures = failures; state = opened }
    else record b { recent_failures = failures }

unfoldable pub is_open : Breaker → Bool
is_open b = elim b.state [ opened ↦ true | closed ↦ false ]

-- Whether the last reset is too recent.
unfoldable pub in_cooldown : ℕ → Breaker → Bool
in_cooldown now b = elim b.last_reset_at [
  | none ↦ false
  | some last ↦ ltb (now - last) b.reset_cooldown
]

-- `reset`; `false` stands for `Err`.
unfoldable pub reset : ℕ → Breaker → Breaker × Bool
unfolding in_cooldown
reset now b =
    if in_cooldown now b
    then (b, false)
    else (record b { recent_failures = []; state = closed; last_reset_at = some now }, true)

unfoldable pub failure_count : Breaker → ℕ
failure_count b = length b.recent_failures
