-- ===== src/Trailing/Handler.antt =====
-- crates/core/src/trailing_stop/handler.rs: the state of a `TrailingStopHandler`, registration and
-- cancellation. Every access to a concurrent map is a step of its own. The tracking task of a symbol
-- is its reference count: a symbol without one has no task.
use trading_gateway.Exit.Breaker
use trading_gateway.Exit.Breaker.{Breaker}
use trading_gateway.Exit.Placement.{or_default}
use trading_gateway.Models.Text.{show_nat}
use trading_gateway.Base.{
  retain, List, ℕ, ◌-◌, String, ◌⧺◌, Bool, true, false, ◌&&◌, Option, none, some, [], length, ltb,
  leb, option_eq, string_eq, nat_eq, map, if◌then◌else◌,
}
use trading_gateway.Base.Map.{values, Map, lookup, insert, remove, modify}
use trading_gateway.Base.Decimal.{Decimal, zero_d, le_dec}
use trading_gateway.Models.Error.{GatewayResult, ok, err, internal, invalid_request}
use trading_gateway.Models.{
  OrderType, trailing_stop, TrailingType, absolute, percent, TradingPlatform,
}
use trading_gateway.Trailing.Types.{
  TrailingEntry, TrailingStopConfig, cancelled, CancellationReason, primary_cancelled,
  primary_rejected, is_terminal, new_entry, set_status,
}
use trading_gateway.Models.Order.{OrderRequest}
use trading_gateway.Exit.Types.{Now}

pub record Handler (D : Type 0) : Type 0 where
  pub entries_by_placeholder : Map String (TrailingEntry D)
  pub entries_by_primary : Map String String
  pub symbol_tasks : Map String ℕ
  -- Whether `new_arc` made the handler, which can then start tracking tasks.
  pub self_ref : Bool
  pub config : TrailingStopConfig D
  pub platform : TradingPlatform
  pub circuit_breaker : Breaker

-- `with_quote_subscriber`
unfoldable pub new_handler :
    {D : Type 0} → Bool → TradingPlatform → TrailingStopConfig D → Handler D
unfolding Breaker.new
new_handler self_ref platform config = record {
  entries_by_placeholder = [];
  entries_by_primary = [];
  symbol_tasks = [];
  self_ref = self_ref;
  config = config;
  platform = platform;
  circuit_breaker = Breaker.new 3 300000;
}

abbrev pub is_trailing_stop : OrderType → Bool
is_trailing_stop trailing_stop = true
is_trailing_stop _ = false

abbrev pub is_percent : TrailingType → Bool
is_percent percent = true
is_percent absolute = false

-- The refcount of a symbol after one of its entries has gone.
abbrev pub release_task : Option ℕ → String → Map String ℕ → Map String ℕ
release_task none symbol tasks = tasks
release_task (some refcount) symbol tasks =
    if ltb 1 refcount then insert symbol (refcount - 1) tasks else remove symbol tasks

module _ {D : Type 0} where
  -- `get_mut` with a change of the entry.
  unfoldable pub update_entry : String → (TrailingEntry D → TrailingEntry D) → Handler D → Handler D
  update_entry id f h = record h { entries_by_placeholder = modify id f h.entries_by_placeholder }

  -- The ids of the entries that pass a test, in the order of the map.
  abbrev pub selected : (TrailingEntry D → Bool) → Map String (TrailingEntry D) → List String
  selected test m = map (λ e. e.placeholder_id) (retain test (values m))

  unfoldable pub get_entry : String → Handler D → Option (TrailingEntry D)
  get_entry placeholder_id h = lookup placeholder_id h.entries_by_placeholder

  unfoldable pub get_placeholder_for_primary : String → Handler D → Option String
  get_placeholder_for_primary primary_order_id h = lookup primary_order_id h.entries_by_primary

  unfoldable pub is_circuit_breaker_open : Handler D → Bool
  unfolding Breaker.is_open
  is_circuit_breaker_open h = Breaker.is_open h.circuit_breaker

  unfoldable pub reset_circuit_breaker : ℕ → Handler D → Handler D
  unfolding Breaker.reset
  reset_circuit_breaker now h = record h {
    circuit_breaker = (Breaker.reset now h.circuit_breaker).0;
  }

  unfoldable pub record_stop_order_failure : ℕ → Handler D → Handler D
  unfolding Breaker.record_failure
  record_stop_order_failure now h = record h {
    circuit_breaker = Breaker.record_failure now h.circuit_breaker;
  }

  -- The insertions at the end of `register`.
  unfoldable pub insert_entry : TrailingEntry D → Handler D → Handler D
  insert_entry e h = record h {
    entries_by_placeholder = insert e.placeholder_id e h.entries_by_placeholder;
    entries_by_primary = insert e.primary_order_id e.placeholder_id h.entries_by_primary;
  }

  unfoldable pub decrement_symbol_task : String → Handler D → Handler D
  decrement_symbol_task symbol h = record h {
    symbol_tasks = release_task (lookup symbol h.symbol_tasks) symbol h.symbol_tasks;
  }

  unfoldable pub forget_primary : String → Handler D → Handler D
  forget_primary primary_order_id h = record h {
    entries_by_primary = remove primary_order_id h.entries_by_primary;
  }

  abbrev pub mark_cancelled : Now → CancellationReason → TrailingEntry D → TrailingEntry D
  mark_cancelled now reason e = set_status now (cancelled now.utc reason) e

  -- What `cancel` does with the entry that it finds.
  unfoldable pub cancel_found :
      Now → String → CancellationReason → TrailingEntry D → Handler D → Bool × Handler D
  unfolding is_terminal set_status
  cancel_found now placeholder_id reason e h = if is_terminal e.status then (false, h) else (
    true,
    decrement_symbol_task e.symbol (
        forget_primary e.primary_order_id
          (update_entry placeholder_id (mark_cancelled now reason) h)),
  )

  -- `cancel`; it never returns `Err`.
  unfoldable pub cancel : Now → String → CancellationReason → Handler D → Bool × Handler D
  cancel now placeholder_id reason h = elim (get_entry placeholder_id h) [
    | none ↦ (false, h)
    | some e ↦ cancel_found now placeholder_id reason e h
  ]

  abbrev pub cancel_for_primary : Now → String → CancellationReason → Handler D → Bool × Handler D
  cancel_for_primary now primary_order_id reason h =
      elim (get_placeholder_for_primary primary_order_id h) [
        | none ↦ (false, h)
        | some placeholder_id ↦ cancel now placeholder_id reason h
      ]

  unfoldable pub on_primary_cancelled : Now → String → Handler D → Bool × Handler D
  on_primary_cancelled now primary_order_id h =
      cancel_for_primary now primary_order_id primary_cancelled h

  unfoldable pub on_primary_rejected : Now → String → Handler D → Bool × Handler D
  on_primary_rejected now primary_order_id h =
      cancel_for_primary now primary_order_id primary_rejected h

module _ {D : Type 0} ⦃dec : Decimal D⦄ where
  -- The part of `register` behind the checks of the request.
  unfoldable pub register_checked :
      Now
      → String
      → OrderRequest D
      → D
      → TrailingType
      → Handler D
      → GatewayResult String × Handler D
  unfolding new_entry
  register_checked now primary_order_id order distance trailing_type h =
      let e =
        new_entry now primary_order_id order.symbol order.side order.quantity distance trailing_type
          h.platform in
      if leb h.config.max_pending_entries (length h.entries_by_placeholder)
      then (
        err (
            internal (
              "Resource exhausted: trailing_stop_entries (limit: "
              ⧺ (show_nat h.config.max_pending_entries ⧺ ")"))),
        h,
      )
      else (ok e.placeholder_id, insert_entry e h)

  unfoldable pub register_distance :
      Now
      → String
      → OrderRequest D
      → D
      → TrailingType
      → Handler D
      → GatewayResult String × Handler D
  register_distance now primary_order_id order distance trailing_type h =
      if le_dec distance zero_d
      then (
        err (invalid_request ("trailing_distance must be positive, got " ⧺ dec.show distance) none),
        h,
      )
      else if is_percent trailing_type && le_dec dec.hundred_dec distance
      then (
        err (
            invalid_request
              ("trailing_distance percentage must be less than 100, got " ⧺ dec.show distance)
              none),
        h,
      )
      else register_checked now primary_order_id order distance trailing_type h

  -- `register`; the result is the placeholder id. `describe` is the derived `Debug` of a type.
  unfoldable pub register :
      (OrderType → String)
      → Now
      → String
      → OrderRequest D
      → Handler D
      → GatewayResult String × Handler D
  register describe now primary_order_id order h =
      if is_trailing_stop order.order_type
      then elim order.trailing_distance [
        | none ↦
            (err (invalid_request "trailing_distance is required for trailing stop orders" none), h)
        | some distance ↦
            register_distance now primary_order_id order distance
              (or_default percent order.trailing_type) h
      ]
      else (
        err (
            invalid_request ("Expected TrailingStop order, got " ⧺ describe order.order_type) none),
        h,
      )
