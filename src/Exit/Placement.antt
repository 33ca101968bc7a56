-- ===== src/Exit/Placement.antt =====
-- crates/core/src/exit_management/fill_handler.rs: placing one exit order, with the retries and the
-- classification of errors. The broker's state also tells the time; sleeping changes it.
pub mod Attempts
pub mod Enough
use trading_gateway.Base.{
  min, ℕ, zero, suc, ◌+◌, String, ◌⧺◌, false, ◌||◌, Option, none, some, List, length, leb, ◌==◌,
  string_eq, nat_eq, if◌then◌else◌, is_some, get_elem?,
}
use trading_gateway.Base.Decimal.{Decimal, zero_d, lt_dec}
use trading_gateway.Models.Error.{
  GatewayError, GatewayResult, ok, err, display, rate_limited, provider_unavailable,
}
use trading_gateway.Models.Adapter.{Adapter}
use trading_gateway.Models.Order.{OrderRequest, OrderHandle, Order}
use trading_gateway.Exit.Types.{
  Now, ExitLegType, stop_loss, take_profit, leg_eq, ExitEntry, ErrorCategory, PlaceOrderError,
  infrastructure_failure, category_rate_limited, exchange_unavailable, place_failed, wash_trade,
  insufficient_balance, client_order_suffix,
}
use trading_gateway.Models.{OrderType, limit, stop, stop_limit, gtc}
use trading_gateway.Models.Text.{to_lowercase, contains, trim, behind, before, show_nat}

-- `retry_count` is a u32, and conversions saturate.
abbrev pub u32_max : ℕ
u32_max = 4294967295

-- `classify_error`, behind its match on two variants.
unfoldable pub classify_text : String → ErrorCategory
unfolding contains
classify_text error_str =
    if contains error_str "rate limit" || contains error_str "too many requests"
    then category_rate_limited
    else if contains error_str "market is closed"
        || (contains error_str "is not tradable"
            || (contains error_str "symbol is halted" || contains error_str "not accepting orders"))
    then exchange_unavailable
    else if contains error_str "-1013"
        || (contains error_str "-4014" || contains error_str "maintenance")
    then exchange_unavailable
    else infrastructure_failure

unfoldable pub classify_error : GatewayError → ErrorCategory
unfolding classify_text display to_lowercase
classify_error (rate_limited s) = category_rate_limited
classify_error (provider_unavailable m) = exchange_unavailable
classify_error e = classify_text (to_lowercase (display e))

-- How often a placement was retried goes with the order, or with the error.
pub data Placement (D : Type 0) : Type 0 where
  submitted : (order : Order D) → (retry_count : ℕ) → Placement D
  refused : (error : PlaceOrderError D) → (retry_count : ℕ) → Placement D

-- The broker, and the time.
pub record Market (D W : Type 0) : Type 0 where
  pub adapter : Adapter D W
  pub clock : W → Now
  -- `tokio::time::sleep`
  pub sleep : ℕ → W → W

abbrev non_empty : Option String → String → String
non_empty none fallback = fallback
non_empty (some id) fallback = if id == "" then fallback else id

abbrev pub or_default {ℓ} : {A : Type ℓ} → A → Option A → A
or_default d none = d
or_default d (some a) = a

module _ {D : Type 0} ⦃dec : Decimal D⦄ where
  abbrev positive : D → Option D
  positive d = if lt_dec zero_d d then some d else none

  abbrev parse_positive : Option D → Option D
  parse_positive none = none
  parse_positive (some d) = positive d

  abbrev parse_part : Option String → Option D
  parse_part none = none
  parse_part (some s) = parse_positive (dec.parse (trim (before (before s "available:") ")")))

  unfoldable pub parse_available_quantity : String → Option D
  unfolding trim before behind
  parse_available_quantity error_msg = parse_part (behind error_msg "available:")

  unfoldable pub classify_and_handle_placement_error :
      List ℕ → GatewayError → OrderRequest D → ℕ → ℕ → Option (PlaceOrderError D × ℕ)
  unfolding parse_available_quantity classify_error display to_lowercase contains
  classify_and_handle_placement_error retry_delays e order attempt retry_count =
      let error_str = display e in
      let lower = to_lowercase error_str in
      if contains lower "insufficient" || (contains lower "balance" || contains lower "not enough")
      then some (
        insufficient_balance error_str order.quantity
            (or_default zero_d (parse_available_quantity error_str)),
        retry_count,
      )
      else if contains lower "wash" || contains lower "self-trade"
      then some (wash_trade error_str, retry_count)
      else if leb (length retry_delays) attempt
      then some (
        place_failed error_str (min (attempt + 1) u32_max) (classify_error e),
        min (attempt + 1) u32_max,
      )
      else none

  -- The order made from the handle, when its details cannot be fetched.
  unfoldable pub fallback_order : ℕ → OrderRequest D → OrderHandle → Order D
  fallback_order utc order handle = record {
    id = handle.id;
    client_order_id = order.client_order_id;
    symbol = order.symbol;
    side = order.side;
    order_type = order.order_type;
    quantity = order.quantity;
    filled_quantity = zero_d;
    remaining_quantity = order.quantity;
    limit_price = order.limit_price;
    stop_price = order.stop_price;
    stop_loss = order.stop_loss;
    take_profit = order.take_profit;
    trailing_distance = order.trailing_distance;
    trailing_type = order.trailing_type;
    average_fill_price = none;
    status = handle.status;
    reject_reason = none;
    position_id = order.position_id;
    parent_order_id = none;
    reduce_only = some order.reduce_only;
    post_only = some order.post_only;
    hidden = some order.hidden;
    display_quantity = order.display_quantity;
    oco_group_id = order.oco_group_id;
    correlation_id = none;
    time_in_force = order.time_in_force;
    created_at = utc;
    updated_at = utc;
  }

  -- What a submitted order counts as, by the answer to the query for its details.
  abbrev fetched : OrderRequest D → OrderHandle → ℕ → ℕ → GatewayResult (Order D) → Placement D
  fetched order handle retry_count utc (ok full_order) = submitted full_order retry_count
  fetched order handle retry_count utc (err e) =
      submitted (fallback_order utc order handle) retry_count

  -- Type, stop price and limit price of the exit order for a leg.
  abbrev leg_prices : ExitLegType → D → Option D → OrderType × (Option D × Option D)
  leg_prices stop_loss trigger none = (stop, (some trigger, none))
  leg_prices stop_loss trigger (some price) = (stop_limit, (some trigger, some price))
  leg_prices take_profit trigger price = (limit, (none, some trigger))

  unfoldable pub exit_client_order_id : ExitEntry D → ℕ → String
  unfolding client_order_suffix show_nat
  exit_client_order_id entry existing_order_count =
      let base =
        non_empty entry.parent_client_order_id entry.primary_order_id
        ⧺ ("-" ⧺ client_order_suffix entry.order_type) in
      if existing_order_count == 0 then base else base ⧺ ("-" ⧺ show_nat existing_order_count)

  unfoldable pub build_exit_order_request : ExitEntry D → D → ℕ → Option String → OrderRequest D
  unfolding exit_client_order_id
  build_exit_order_request entry quantity existing_order_count position_id =
      let (order_type, (stop_price, limit_price)) =
        leg_prices entry.order_type entry.trigger_price entry.limit_price in
      record {
        symbol = entry.symbol;
        side = entry.side;
        quantity = quantity;
        order_type = order_type;
        limit_price = limit_price;
        stop_price = stop_price;
        trailing_distance = none;
        trailing_type = none;
        stop_loss = none;
        take_profit = none;
        position_id = position_id;
        reduce_only = is_some position_id;
        post_only = false;
        hidden = false;
        display_quantity = none;
        margin_mode = none;
        leverage = none;
        client_order_id = some (exit_client_order_id entry existing_order_count);
        oco_group_id = none;
        time_in_force = gtc;
      }

  module _ {W : Type 0} (market : Market D W) where
    -- The loop over the attempts; `left` counts those that remain. A delay is looked up only where
    -- the classification has returned nothing, and so before the last attempt.
    unfoldable pub place_attempts :
        List ℕ → OrderRequest D → (left attempt retry_count : ℕ) → W → Placement D × W
    unfolding fallback_order classify_and_handle_placement_error
    place_attempts retry_delays order zero attempt retry_count w = (
      refused (place_failed "Exhausted all retry attempts" retry_count infrastructure_failure)
          retry_count,
      w,
    )
    place_attempts retry_delays order (suc left) attempt retry_count w =
        let (answer, w1) = market.adapter.submit_order order w in
        elim answer [
          | ok handle ↦
              let (details, w2) = market.adapter.get_order handle.id w1 in
              (fetched order handle retry_count (market.clock w2).utc details, w2)
          | err e ↦
              elim (classify_and_handle_placement_error retry_delays e order attempt retry_count) [
                | some failure ↦ (refused failure.0 failure.1, w1)
                | none ↦
                    place_attempts retry_delays order left (attempt + 1) (min (attempt + 1) u32_max)
                      (market.sleep (or_default 0 (get_elem? retry_delays attempt)) w1)
              ]
        ]

    unfoldable pub place_order_with_retry : List ℕ → OrderRequest D → W → Placement D × W
    unfolding place_attempts
    place_order_with_retry retry_delays order w =
        place_attempts retry_delays order (length retry_delays + 1) 0 0 w
