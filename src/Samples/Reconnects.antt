-- ===== src/Samples/Reconnects.antt =====
-- The third attempt to reconnect, with the default durations.
use trading_gateway.Base.{arith, ◌+◌, ◌/◌, ◌≤◌, true, false, some, ◌≡◌, refl}
use trading_gateway.Reconnection.{
  ReconnectionHandler, retrying, capped_backoff, jitter, next_backoff, exceeded, is_retrying,
}
use trading_gateway.Reconnection.Backoff.{plain_backoff, next_backoff-bounds}

abbrev third : ReconnectionHandler
third = record {
  config = record { initial_backoff = 1000; max_backoff = 60000; max_retry_duration = 300000 };
  state = retrying;
  attempt_count = 2;
  disconnected_at = some 50;
}

next_backoff-bounds_example :
    (is_retrying third.state ≡ true)
    × (exceeded 5000 third.config third.disconnected_at ≡ false)
    × (plain_backoff third.config third.attempt_count ≤ 4007)
    × (4007
        ≤ plain_backoff third.config third.attempt_count
          + plain_backoff third.config third.attempt_count / 4)
    × (3 ≡ third.attempt_count + 1)
unfolding next_backoff capped_backoff jitter
next_backoff-bounds_example =
    next_backoff-bounds 5000 7 third (record third { attempt_count = 3 }) 4007 (omega arith) refl

-- A maximum at the end of the 64 bits: the sum with the jitter wraps around, to a delay of nothing.
abbrev patient : ReconnectionHandler
patient = record third {
  config = record {
    initial_backoff = 18446744073709551615;
    max_backoff = 18446744073709551615;
    max_retry_duration = 300000;
  };
}

wraps : (next_backoff 5000 1 patient).0 ≡ some 0
unfolding next_backoff capped_backoff jitter
wraps = refl
