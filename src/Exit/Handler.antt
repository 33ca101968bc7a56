-- ===== src/Exit/Handler.antt =====
-- crates/core/src/exit_management/handler.rs: the state of an `ExitHandler` and its queries. Every
-- operation on the concurrent maps is a step of its own; the lock of fill processing makes
-- `handle_fill` and `replace_exit_leg` one step each.
use trading_gateway.Base.{
  ℕ, String, Bool, true, false, Option, none, some, List, [], any, retain, ◌==◌, string_eq,
  find_map, filter_map, map, if◌then◌else◌,
}
use trading_gateway.Base.Map.{Map, lookup, insert, contains_key, values}
use trading_gateway.Models.{TradingPlatform}
use trading_gateway.Exit.Types.{
  ExitLegType, ExitEntry, ExitEntryStatus, failed, cancelled, expired, actual_orders,
  ExitHandlerConfig,
}
use trading_gateway.Exit.Breaker
use trading_gateway.Exit.Breaker.{Breaker}
use trading_gateway.Exit.Index.{Index, placeholders, add_to_secondary_index}

pub record BufferedFill (D : Type 0) : Type 0 where
  pub filled_qty : D
  pub total_qty : D
  pub position_qty : Option D
  pub position_id : Option String
  pub buffered_at : ℕ

pub record Handler (D : Type 0) : Type 0 where
  pub pending_by_placeholder : Map String (ExitEntry D)
  pub pending_by_primary : Index
  pub unmatched_fills : Map String (BufferedFill D)
  pub config : ExitHandlerConfig D
  pub circuit_breaker : Breaker
  pub platform : TradingPlatform

-- `ExitHandler::new`
unfoldable pub new_handler : {D : Type 0} → TradingPlatform → ExitHandlerConfig D → Handler D
unfolding Breaker.new
new_handler platform config = record {
  pending_by_placeholder = [];
  pending_by_primary = [];
  unmatched_fills = [];
  config = config;
  circuit_breaker = Breaker.new config.circuit_breaker_threshold config.circuit_breaker_window;
  platform = platform;
}

-- `FailedExitInfo` of crates/core/src/exit_management/types.rs
pub record FailedExitInfo : Type 0 where
  pub primary_order_id : String
  pub symbol : String
  pub order_type : ExitLegType
  pub error : String
  pub failed_at : ℕ
  pub actual_order_ids : List String

module _ {D : Type 0} where
  unfoldable pub get_entry : String → Handler D → Option (ExitEntry D)
  get_entry placeholder_id h = lookup placeholder_id h.pending_by_placeholder

  unfoldable pub has_pending_for_primary : String → Handler D → Bool
  unfolding placeholders
  has_pending_for_primary primary_order_id h =
      any (λ id. contains_key id h.pending_by_placeholder)
        (placeholders primary_order_id h.pending_by_primary)

  abbrev pub owns : String → ExitEntry D → Bool
  owns order_id e = any (λ o. o.order_id == order_id) (actual_orders e.status)

  unfoldable pub parent_order_id_for : String → Handler D → Option String
  parent_order_id_for order_id h =
      find_map (λ p. if owns order_id p.1 then some p.1.primary_order_id else none)
        h.pending_by_placeholder

  unfoldable pub insert_entry : ExitEntry D → Handler D → Handler D
  unfolding add_to_secondary_index
  insert_entry e h = record h {
    pending_by_placeholder = insert e.placeholder_id e h.pending_by_placeholder;
    pending_by_primary =
        add_to_secondary_index e.primary_order_id e.placeholder_id h.pending_by_primary;
  }

  abbrev live_status : ExitEntryStatus D → Bool
  live_status (cancelled t r) = false
  live_status (expired t) = false
  live_status _ = true

  -- `get_non_terminal_entries`
  unfoldable pub get_non_terminal_entries : Handler D → List (ExitEntry D)
  get_non_terminal_entries h = retain (λ e. live_status e.status) (values h.pending_by_placeholder)

  abbrev failed_info : ExitEntry D → ExitEntryStatus D → Option FailedExitInfo
  failed_info e (failed error retry_count failed_at orders) = some (record {
    primary_order_id = e.primary_order_id;
    symbol = e.symbol;
    order_type = e.order_type;
    error = error;
    failed_at = failed_at;
    actual_order_ids = map (λ o. o.order_id) orders;
  })
  failed_info e _ = none

  -- `get_failed_entries_internal`
  unfoldable pub get_failed_entries : Handler D → List FailedExitInfo
  get_failed_entries h = filter_map (λ e. failed_info e e.status) (values h.pending_by_placeholder)
