-- ===== src/Samples/Entries.antt =====
-- An order with exits, a handler that watches it, and a broker that takes every order.
use trading_gateway.Base.{ℕ, ◌+◌, String, false, none, some, [], ◌∷◌, string_eq, nat_eq}
use trading_gateway.Models.Error.{GatewayResult, ok, err, order_not_found}
use trading_gateway.Models.Order.{OrderRequest, OrderHandle}
use trading_gateway.Exit.Types.{Now, leg_eq, ExitEntryStatus, ExitHandlerConfig}
use trading_gateway.Exit.Handler.{new_handler, Handler}
use trading_gateway.Samples.Numbers.{Whole, whole, units}
use trading_gateway.Models.{buy, limit, gtc, mock, open_status}
use trading_gateway.Exit.Registration.{register}
use trading_gateway.Exit.Placement.{Market}

abbrev pub entry_order : OrderRequest Whole
entry_order = record {
  symbol = "AAPL";
  side = buy;
  quantity = units 10;
  order_type = limit;
  limit_price = some (units 100);
  stop_price = none;
  trailing_distance = none;
  trailing_type = none;
  stop_loss = some (units 90);
  take_profit = some (units 110);
  position_id = none;
  reduce_only = false;
  post_only = false;
  hidden = false;
  display_quantity = none;
  margin_mode = none;
  leverage = none;
  client_order_id = some "client";
  oco_group_id = none;
  time_in_force = gtc;
}

abbrev pub at_time : ℕ → Now
at_time n = record { instant = n; utc = n }

abbrev pub settings : ExitHandlerConfig Whole
settings = record {
  max_pending_entries = 100;
  entry_ttl = 1000;
  circuit_breaker_threshold = 3;
  circuit_breaker_window = 60000;
  min_exit_order_qty = units 1;
  retry_delays = 100 ∷ 200 ∷ [];
}

abbrev pub idle : Handler Whole
idle = new_handler mock settings

abbrev pub watching : Handler Whole
watching = (register (at_time 5) "p1" entry_order idle).1

-- The broker counts the orders that it was sent; its clock is the count.
abbrev taken : ℕ → GatewayResult OrderHandle × ℕ
taken n = (
  ok (record { id = "o1"; client_order_id = none; correlation_id = none; status = open_status }),
  n + 1,
)

abbrev pub broker : Market Whole ℕ
broker = record {
  adapter = record {
    submit_order = λ order n. taken n;
    get_order = λ id n. (err (order_not_found id), n);
    modify_order = λ id request n. (err (order_not_found id), n);
    cancel_order = λ id n. (ok tt, n);
  };
  clock = at_time;
  sleep = λ delay n. n;
}

abbrev pub describe : ExitEntryStatus Whole → String
describe s = "status"
