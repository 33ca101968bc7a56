-- ===== src/Reconnection.antt =====
-- crates/core/src/websocket/reconnection.rs: the backoff between attempts to reconnect to a broker.
-- Durations and instants are numbers of milliseconds; the clock and the nanoseconds that the jitter
-- is taken from are arguments. The sum of the delay and the jitter is a u64 and wraps, as in a build
-- without overflow checks. The attempt counter is taken as unbounded.
pub mod Backoff
use trading_gateway.Base.{
  ℕ, suc, ◌+◌, ◌-◌, ◌*◌, ◌/◌, ◌%◌, ◌^◌, min, max, Bool, true, false, Option, none, some, leb,
  if◌then◌else◌,
}

-- `ReconnectionConfig` of crates/core/src/config.rs
pub record ReconnectionConfig : Type 0 where
  pub initial_backoff : ℕ
  pub max_backoff : ℕ
  pub max_retry_duration : ℕ

pub data State : Type 0 where
  idle retrying gave_up : State

pub record ReconnectionHandler : Type 0 where
  pub config : ReconnectionConfig
  pub state : State
  pub attempt_count : ℕ
  pub disconnected_at : Option ℕ

unfoldable pub new_reconnection : ReconnectionConfig → ReconnectionHandler
new_reconnection config = record {
  config = config;
  state = idle;
  attempt_count = 0;
  disconnected_at = none;
}

unfoldable pub on_disconnect : ℕ → ReconnectionHandler → ReconnectionHandler
on_disconnect now r = record r { state = retrying; attempt_count = 0; disconnected_at = some now }

abbrev pub u64_max : ℕ
u64_max = 18446744073709551615

-- `capped_ms` of `next_backoff`.
unfoldable pub capped_backoff : ReconnectionConfig → ℕ → ℕ
capped_backoff config attempt_count =
    let base = min config.initial_backoff u64_max in
    let exp = min attempt_count 6 in
    min (min (base * 2 ^ exp) u64_max) (min config.max_backoff u64_max)

unfoldable pub jitter : ℕ → ℕ → ℕ
jitter nanos capped_ms = if leb 1 capped_ms then nanos % max (capped_ms / 4) 1 else 0

abbrev pub exceeded : ℕ → ReconnectionConfig → Option ℕ → Bool
exceeded now config none = false
exceeded now config (some at) = leb config.max_retry_duration (now - at)

abbrev pub is_retrying : State → Bool
is_retrying retrying = true
is_retrying _ = false

unfoldable pub next_backoff : ℕ → ℕ → ReconnectionHandler → Option ℕ × ReconnectionHandler
unfolding capped_backoff jitter
next_backoff now nanos r =
    let capped_ms = capped_backoff r.config r.attempt_count in
    if is_retrying r.state
    then (if exceeded now r.config r.disconnected_at then (none, r) else (
      some ((capped_ms + jitter nanos capped_ms) % 2 ^ 64),
      record r { attempt_count = r.attempt_count + 1 },
    ))
    else (none, r)

abbrev gap_since : ℕ → Option ℕ → Option ℕ
gap_since now none = none
gap_since now (some at) = some (now - at)

unfoldable pub gap_duration : ℕ → ReconnectionHandler → Option ℕ
gap_duration now r = gap_since now r.disconnected_at

unfoldable pub reset_reconnection : ReconnectionHandler → ReconnectionHandler
reset_reconnection r = record r { state = idle; attempt_count = 0; disconnected_at = none }

abbrev or_zero : Option ℕ → ℕ
or_zero none = 0
or_zero (some n) = n

unfoldable pub on_reconnect_success : ℕ → ReconnectionHandler → ℕ × ReconnectionHandler
unfolding gap_duration reset_reconnection
on_reconnect_success now r = (or_zero (gap_duration now r), reset_reconnection r)

unfoldable pub on_gave_up : ReconnectionHandler → ReconnectionHandler
on_gave_up r = record r { state = gave_up }
