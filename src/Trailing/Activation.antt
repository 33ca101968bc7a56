-- ===== src/Trailing/Activation.antt =====
-- crates/core/src/trailing_stop/handler.rs: the start of price tracking, when the primary order has
-- filled.
use trading_gateway.Base.{
  ℕ, ◌+◌, String, ◌⧺◌, Bool, true, false, Option, none, some, option_eq, string_eq, nat_eq,
  if◌then◌else◌, sym,
}
use trading_gateway.Base.Map.{lookup, insert}
use trading_gateway.Base.Decimal.{Decimal}
use trading_gateway.Models.Error.{
  unsupported_operation, symbol_not_found, GatewayError, GatewayResult, ok, err,
  provider_unavailable,
}
use trading_gateway.Trailing.Types.{
  TrailingEntry, tracking, price_source_unavailable, is_pending, set_status, calculate_stop,
}
use trading_gateway.Trailing.Orders.{Surroundings}
use trading_gateway.Trailing.Handler.{Handler, get_entry, get_placeholder_for_primary}
use trading_gateway.Exit.Types.{Now}

abbrev pub count_task : Option ℕ → ℕ
count_task none = 1
count_task (some refcount) = refcount + 1

module _ {D : Type 0} where
  -- `spawn_tracking_task`: one task per symbol, counted.
  unfoldable pub spawn_tracking_task : String → Handler D → Handler D
  spawn_tracking_task symbol h =
      if h.self_ref
      then record h {
        symbol_tasks = insert symbol (count_task (lookup symbol h.symbol_tasks)) h.symbol_tasks;
      }
      else h

  abbrev pub unavailable : Now → String → TrailingEntry D → TrailingEntry D
  unavailable now reason e =
      set_status now (price_source_unavailable e.created_at_utc reason 0 none) e

  unfoldable pub handle_activation_failure :
      Now → GatewayError → TrailingEntry D → GatewayResult (TrailingEntry D)
  unfolding set_status
  handle_activation_failure now (unsupported_operation operation provider) e =
      ok (unavailable now "Real-time price tracking not yet implemented" e)
  handle_activation_failure now (symbol_not_found sym) e =
      ok (unavailable now ("Price not available for " ⧺ sym) e)
  handle_activation_failure now (provider_unavailable message) e =
      ok (unavailable now ("Price source unavailable: " ⧺ message) e)
  handle_activation_failure now other e = err other

  -- The entry is put back, whatever other tasks did to it in the meantime.
  unfoldable pub put_back : String → TrailingEntry D → Handler D → Handler D
  put_back id e h = record h { entries_by_placeholder = insert id e h.entries_by_placeholder }

module _ {D : Type 0} ⦃dec : Decimal D⦄ where
  module _ {W : Type 0} (around : Surroundings D W) where
    abbrev subscribed_at : D → GatewayResult (Unit {0}) × W → GatewayResult D × W
    subscribed_at price (ok done, w) = (ok price, w)
    subscribed_at price (err e, w) = (err e, w)

    -- The first price that a new subscription brings, if it brings one in time.
    abbrev first_price : String → Option D × W → GatewayResult D × W
    first_price symbol (some price, w) = (ok price, w)
    first_price symbol (none, w) =
        (err (symbol_not_found symbol), (around.prices.unsubscribe symbol w).1)

    abbrev await_price : ℕ → String → GatewayResult (Unit {0}) × W → GatewayResult D × W
    await_price timeout symbol (ok done, w) =
        first_price symbol (around.prices.first_update timeout symbol w)
    await_price timeout symbol (err e, w) = (err e, w)

    abbrev price_or_wait : ℕ → String → GatewayResult D × W → GatewayResult D × W
    price_or_wait timeout symbol (ok price, w) =
        subscribed_at price (around.prices.subscribe symbol w)
    price_or_wait timeout symbol (err e, w) =
        await_price timeout symbol (around.prices.subscribe symbol w)

    -- The price that tracking starts from: the cached one, or the first to arrive.
    unfoldable pub activation_price : ℕ → String → W → GatewayResult D × W
    activation_price timeout symbol w =
        let w1 = (around.prices.ensure_subscribed symbol w).1 in
        price_or_wait timeout symbol (around.prices.current_price symbol w1)

    abbrev pub tracked_from : Now → D → TrailingEntry D → TrailingEntry D
    tracked_from now price e = set_status now (tracking price (calculate_stop e price) now.utc) e

    abbrev pub started :
        TrailingEntry D
        → GatewayResult D × W
        → Handler D
        → GatewayResult (TrailingEntry D) × (Handler D × W)
    started e (ok price, w) h =
        (ok (tracked_from (around.clock w) price e), (spawn_tracking_task e.symbol h, w))
    started e (err error, w) h = (err error, (h, w))

    -- `try_activate_tracking`; the entry is changed where it succeeds only.
    unfoldable pub try_activate_tracking :
        TrailingEntry D → Handler D × W → GatewayResult (TrailingEntry D) × (Handler D × W)
    unfolding activation_price spawn_tracking_task set_status calculate_stop
    try_activate_tracking e (h, w) =
        let (price, w1) = activation_price h.config.activation_timeout e.symbol w in
        started e (price, w1) (around.meanwhile w1 h)

    abbrev pub after_failure :
        String
        → GatewayResult (TrailingEntry D)
        → Handler D × W
        → GatewayResult Bool × (Handler D × W)
    after_failure id (ok e) (h, w) = (ok false, (put_back id e h, w))
    after_failure id (err error) s = (err error, s)

    abbrev pub after_activation :
        String
        → TrailingEntry D
        → GatewayResult (TrailingEntry D) × (Handler D × W)
        → GatewayResult Bool × (Handler D × W)
    after_activation id e (ok e1, (h, w)) = (ok true, (put_back id e1 h, w))
    after_activation id e (err error, (h, w)) =
        after_failure id (handle_activation_failure (around.clock w) error e) (h, w)

    abbrev pub fill_entry :
        String → Option (TrailingEntry D) → Handler D × W → GatewayResult Bool × (Handler D × W)
    fill_entry id none s = (ok false, s)
    fill_entry id (some e) s =
        if is_pending e.status
        then after_activation id e (try_activate_tracking e s)
        else (ok false, s)

    -- `on_primary_filled`; the fill price is logged only.
    unfoldable pub on_primary_filled : String → Handler D × W → GatewayResult Bool × (Handler D × W)
    unfolding get_placeholder_for_primary get_entry is_pending try_activate_tracking put_back
        handle_activation_failure
    on_primary_filled primary_order_id (h, w) =
        elim (get_placeholder_for_primary primary_order_id h) [
          | none ↦ (ok false, (h, w))
          | some id ↦ fill_entry id (get_entry id h) (h, w)
        ]
