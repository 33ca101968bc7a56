-- ===== src/Samples/Breakers.antt =====
-- The breakers, coverage and ids at concrete values.
use trading_gateway.Base.{ℕ, false, some, List, [], ◌∷◌, string_eq, nat_eq, ◌≡◌, arith}
use trading_gateway.Exit.Types.{
  stop_loss, take_profit, leg_eq, ActualOrder, generate_placeholder_id, open_order,
}
use trading_gateway.Samples.Numbers.{Whole, whole, units}
use trading_gateway.Exit.Breaker
use trading_gateway.Exit.Breaker.Window.{record_all, IsTimeline, trips, record_all-new_opens_iff}
use trading_gateway.CircuitBreaker
use trading_gateway.CircuitBreaker.{from_adapter, AdapterBreaker}
use trading_gateway.CircuitBreaker.Simulation.{record_all_adapter, adapter_breaker_opens_iff}
use trading_gateway.Exit.Ids.{parse_placeholder_id, parse-generate}

-- Three failures, the first two too far apart from the third.
abbrev failures : List ℕ
failures = 10 ∷ 20 ∷ 200 ∷ []

in_order : IsTimeline 0 failures
in_order = (omega arith, (omega arith, (omega arith, tt)))

record_all-new_opens_iff_example :
    Breaker.is_open (record_all failures (Breaker.new 3 100)) ≡ trips 3 100 [] failures
record_all-new_opens_iff_example = record_all-new_opens_iff 3 100 failures in_order

stays_closed : Breaker.is_open (record_all failures (Breaker.new 3 100)) ≡ false
stays_closed = record_all-new_opens_iff 3 100 failures in_order

abbrev fresh : Breaker.Breaker
fresh = Breaker.new 3 100

abbrev provider : AdapterBreaker
provider = CircuitBreaker.new 3 100 "alpaca"

adapter_breaker_opens_iff_example :
    CircuitBreaker.is_open (record_all_adapter failures (CircuitBreaker.new 3 100 "alpaca"))
    ≡ trips 3 100 [] failures
adapter_breaker_opens_iff_example = adapter_breaker_opens_iff 3 100 "alpaca" failures in_order

abbrev half : ActualOrder Whole
half = record {
  order_id = "o1";
  quantity = units 4;
  placed_at = 6;
  status = open_order;
  leg_type = stop_loss;
}

parse-generate_example :
    parse_placeholder_id (generate_placeholder_id take_profit "exit:sl:p1")
    ≡ some (take_profit, "exit:sl:p1")
parse-generate_example = parse-generate take_profit "exit:sl:p1"
