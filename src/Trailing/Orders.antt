-- ===== src/Trailing/Orders.antt =====
-- crates/core/src/trailing_stop/handler.rs: placing and moving the stop order at the broker. While a
-- call is awaited other tasks may change the handler: `meanwhile` is what they do.
use trading_gateway.Exit.Placement.{or_default}
use trading_gateway.Base.{
  String, Bool, true, false, Option, none, some, option_eq, string_eq, nat_eq, if◌then◌else◌,
}
use trading_gateway.Base.Decimal.{Decimal, eq_dec}
use trading_gateway.Models.Error.{GatewayError, GatewayResult, ok, err, display}
use trading_gateway.Models.{Side}
use trading_gateway.Trailing.Types.{
  TrailingEntryStatus, TrailingEntry, active, failed, CancellationReason, is_terminal, set_status,
  current_peak,
}
use trading_gateway.Trailing.Surroundings.{
  StopOrderRequest, ModifyStopRequest, PlacedStopOrder, StopOrderStatus, StopOrderExecutor,
  PriceSource,
}
use trading_gateway.Trailing.Handler.{
  Handler, get_entry, is_circuit_breaker_open, record_stop_order_failure, update_entry, cancel,
}
use trading_gateway.Exit.Types.{Now}

pub record Surroundings (D W : Type 0) : Type 0 where
  pub executor : StopOrderExecutor D W
  pub prices : PriceSource D W
  pub clock : W → Now
  pub meanwhile : W → Handler D → Handler D

module _ {D : Type 0} ⦃dec : Decimal D⦄ where
  -- The stop order is at the broker.
  abbrev pub made_active : Now → PlacedStopOrder D → D → TrailingEntry D → TrailingEntry D
  made_active now order peak_price e =
      set_status now (active order.order_id peak_price order.stop_price now.utc) e

  -- The status that an adjusted order gives, where there was an order.
  abbrev pub moved_status :
      Now → String → D → TrailingEntryStatus D → Option (TrailingEntryStatus D)
  moved_status now order_id stop_price (active old peak_price level at) =
      some (active order_id peak_price stop_price now.utc)
  moved_status now order_id stop_price _ = none

  abbrev pub set_if : Now → Option (TrailingEntryStatus D) → TrailingEntry D → TrailingEntry D
  set_if now none e = e
  set_if now (some status) e = set_status now status e

  abbrev pub moved : Now → String → D → TrailingEntry D → TrailingEntry D
  moved now order_id stop_price e = set_if now (moved_status now order_id stop_price e.status) e

  abbrev pub stop_request : String → Side → D → D → StopOrderRequest D
  stop_request symbol side quantity stop_level = record {
    symbol = symbol;
    side = side;
    quantity = quantity;
    stop_price = stop_level;
    limit_price = stop_level;
  }

  abbrev pub modify_request : String → String → D → Side → D → ModifyStopRequest D
  modify_request stop_order_id symbol new_stop_level side quantity = record {
    order_id = stop_order_id;
    symbol = symbol;
    side = side;
    quantity = quantity;
    new_stop_price = new_stop_level;
    new_limit_price = new_stop_level;
  }

  module _ {W : Type 0} (around : Surroundings D W) where
    -- The answer of the broker to `place_stop_order`; the initial stop order falls back on the
    -- requested level where the entry has no peak.
    unfoldable pub placement_answer :
        String → D → GatewayResult (PlacedStopOrder D) → Now → Handler D → Bool × Handler D
    unfolding update_entry current_peak set_status record_stop_order_failure display
    placement_answer placeholder_id stop_level (ok order) now h = (
      true,
      update_entry placeholder_id
          (λ e. made_active now order (or_default stop_level (current_peak e.status)) e) h,
    )
    placement_answer placeholder_id stop_level (err e) now h = (
      false,
      update_entry placeholder_id (set_status now (failed (display e) 0 now.utc))
          (record_stop_order_failure now.instant h),
    )

    -- `place_initial_stop`; it never returns `Err`.
    unfoldable pub place_initial_stop :
        String → String → Side → D → D → Handler D × W → Bool × (Handler D × W)
    unfolding placement_answer is_circuit_breaker_open
    place_initial_stop placeholder_id symbol side quantity stop_level (h, w) =
        let (answer, w1) =
          around.executor.place_stop_order (stop_request symbol side quantity stop_level) w in
        let (placed, h1) =
          placement_answer placeholder_id stop_level answer (around.clock w1)
            (around.meanwhile w1 h) in
        if is_circuit_breaker_open h then (false, (h, w)) else (placed, (h1, w1))

    -- The broker is asked where a stop order stands whose change was refused.
    unfoldable pub verify_adjustment :
        String
        → D
        → GatewayError
        → GatewayResult (StopOrderStatus D)
        → Now
        → Handler D
        → GatewayResult (Option String) × Handler D
    unfolding update_entry set_status
    verify_adjustment placeholder_id new_stop_level e (ok status) now h =
        if eq_dec status.stop_price new_stop_level
        then (
          ok (some status.order_id),
          update_entry placeholder_id (moved now status.order_id status.stop_price) h,
        )
        else (err e, h)
    verify_adjustment placeholder_id new_stop_level e (err verify_err) now h = (err e, h)

    -- The answer of the broker to `modify_stop_order`.
    unfoldable pub adjustment_answer :
        String
        → String
        → String
        → D
        → GatewayResult (PlacedStopOrder D)
        → Handler D × W
        → GatewayResult (Option String) × (Handler D × W)
    unfolding update_entry set_status record_stop_order_failure verify_adjustment
    adjustment_answer placeholder_id stop_order_id symbol new_stop_level (ok order) (h, w) = (
      ok (some order.order_id),
      (update_entry placeholder_id (moved (around.clock w) order.order_id order.stop_price) h, w),
    )
    adjustment_answer placeholder_id stop_order_id symbol new_stop_level (err e) (h, w) =
        let h1 = record_stop_order_failure (around.clock w).instant h in
        let (status, w1) = around.executor.get_stop_order_status stop_order_id symbol w in
        let (result, h2) =
          verify_adjustment placeholder_id new_stop_level e status (around.clock w1)
            (around.meanwhile w1 h1) in
        (result, (h2, w1))

    unfoldable pub adjust_stop_order :
        String
        → String
        → String
        → D
        → Side
        → D
        → Handler D × W
        → GatewayResult (Option String) × (Handler D × W)
    unfolding adjustment_answer is_circuit_breaker_open
    adjust_stop_order placeholder_id stop_order_id symbol new_stop_level side quantity (h, w) =
        let (answer, w1) =
          around.executor.modify_stop_order
            (modify_request stop_order_id symbol new_stop_level side quantity) w in
        if is_circuit_breaker_open h
        then (ok none, (h, w))
        else adjustment_answer placeholder_id stop_order_id symbol new_stop_level answer
            (around.meanwhile w1 h, w1)

    abbrev pub stop_order_of : TrailingEntryStatus D → Option String
    stop_order_of (active stop_order_id peak level at) = some stop_order_id
    stop_order_of _ = none

    abbrev pub then_cancelled : String → CancellationReason → Handler D × W → Bool × (Handler D × W)
    then_cancelled placeholder_id reason (h, w) =
        let (done, h1) = cancel (around.clock w) placeholder_id reason h in (done, (h1, w))

    -- Whether the broker cancels its order or refuses, the entry is cancelled.
    unfoldable pub cancel_live :
        String
        → CancellationReason
        → Option String
        → String
        → Handler D × W
        → Bool × (Handler D × W)
    unfolding cancel
    cancel_live placeholder_id reason none symbol (h, w) =
        then_cancelled placeholder_id reason (h, w)
    cancel_live placeholder_id reason (some stop_order_id) symbol (h, w) =
        let w1 = (around.executor.cancel_stop_order stop_order_id symbol w).1 in
        then_cancelled placeholder_id reason (around.meanwhile w1 h, w1)

    -- `cancel_async`; it never returns `Err`.
    unfoldable pub cancel_async :
        String → CancellationReason → Handler D × W → Bool × (Handler D × W)
    unfolding cancel_live get_entry is_terminal
    cancel_async placeholder_id reason (h, w) = elim (get_entry placeholder_id h) [
      | none ↦ (false, (h, w))
      | some e ↦
          if is_terminal e.status
          then (false, (h, w))
          else cancel_live placeholder_id reason (stop_order_of e.status) e.symbol (h, w)
    ]
