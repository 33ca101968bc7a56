-- ===== src/Trailing/Prices.antt =====
-- crates/core/src/trailing_stop/handler.rs: what a price update does to the entries of a symbol, and
-- what the loss of its price source does.
use trading_gateway.Base.{
  String, ◌⧺◌, ◌&&◌, Option, none, some, List, [], ◌∷◌, ◌==◌, option_eq, string_eq, nat_eq,
  if◌then◌else◌,
}
use trading_gateway.Base.Map.{Map, remove}
use trading_gateway.Base.Decimal.{Decimal}
use trading_gateway.Models.Error.{GatewayResult, ok}
use trading_gateway.Models.{Side}
use trading_gateway.Trailing.Types.{
  TrailingEntryStatus, TrailingEntry, tracking, active, price_source_unavailable, is_active,
  set_status, current_peak, is_peak_improvement, should_adjust_stop, calculate_stop,
}
use trading_gateway.Trailing.Orders.{Surroundings, set_if, place_initial_stop, adjust_stop_order}
use trading_gateway.Trailing.Handler.{selected, Handler, get_entry, update_entry}
use trading_gateway.Exit.Types.{Now}

pub data PriceUpdateAction (D : Type 0) : Type 0 where
  place_stop :
      (symbol : String) → (side : Side) → (quantity stop_level new_peak : D) → PriceUpdateAction D
  adjust_stop :
      (stop_order_id symbol : String)
      → (side : Side) → (quantity new_stop_level new_peak : D) → PriceUpdateAction D
  update_state_only : (new_peak new_stop_level : D) → PriceUpdateAction D

-- The ids of the entries on a symbol that are tracked.
unfoldable pub active_ids : {D : Type 0} → String → Map String (TrailingEntry D) → List String
unfolding is_active
active_ids symbol m = selected (λ e. e.symbol == symbol && is_active e.status) m

module _ {D : Type 0} where
  -- The status under which the price source of an entry is lost.
  abbrev pub lost_reason : TrailingEntryStatus D → String
  lost_reason (active stop_order_id peak level at) =
      "Price source disconnected (stop order " ⧺ (stop_order_id ⧺ " still active at broker)")
  lost_reason _ = "Price source disconnected"

  abbrev pub disconnected : Now → TrailingEntry D → TrailingEntry D
  disconnected now e =
      set_status now (price_source_unavailable e.created_at_utc (lost_reason e.status) 0 none) e

  unfoldable pub disconnect_each : Now → List String → Handler D → Handler D
  unfolding update_entry set_status
  disconnect_each now [] h = h
  disconnect_each now (id ∷ ids) h = disconnect_each now ids (update_entry id (disconnected now) h)

  unfoldable pub on_price_source_disconnected : Now → String → Handler D → Handler D
  unfolding active_ids disconnect_each
  on_price_source_disconnected now symbol h =
      let h1 = disconnect_each now (active_ids symbol h.entries_by_placeholder) h in
      record h1 { symbol_tasks = remove symbol h1.symbol_tasks }

module _ {D : Type 0} ⦃dec : Decimal D⦄ where
  -- What a price asks for, by the status of the entry.
  unfoldable pub price_action :
      D → TrailingEntry D → TrailingEntryStatus D → Option (PriceUpdateAction D)
  unfolding is_peak_improvement calculate_stop should_adjust_stop
  price_action price e (tracking current_peak current_stop at) = some (
      if is_peak_improvement current_peak price e.side
      then place_stop e.symbol e.side e.quantity (calculate_stop e price) price
      else place_stop e.symbol e.side e.quantity current_stop current_peak)
  price_action price e (active stop_order_id current_peak old_stop_level at) =
      if is_peak_improvement current_peak price e.side
      then some (
          if should_adjust_stop old_stop_level (calculate_stop e price)
          then adjust_stop stop_order_id e.symbol e.side e.quantity (calculate_stop e price) price
          else update_state_only price (calculate_stop e price))
      else none
  price_action price e _ = none

  -- New levels in a status that is tracked; `moved` tells whether a tracked stop level moves too.
  abbrev pub track_levels : D → D → TrailingEntryStatus D → Option (TrailingEntryStatus D)
  track_levels peak level (tracking old_peak old_level at) = some (tracking peak level at)
  track_levels peak level _ = none

  abbrev pub active_levels : D → D → TrailingEntryStatus D → Option (TrailingEntryStatus D)
  active_levels peak level (active id old_peak old_level at) = some (active id peak level at)
  active_levels peak level _ = none

  abbrev pub both_levels : D → D → TrailingEntryStatus D → Option (TrailingEntryStatus D)
  both_levels peak level (tracking old_peak old_level at) = some (tracking peak level at)
  both_levels peak level (active id old_peak old_level at) = some (active id peak level at)
  both_levels peak level _ = none

  module _ {W : Type 0} (around : Surroundings D W) where
    unfoldable pub handle_place_stop_action :
        String → String → Side → D → D → D → Handler D × W → Handler D × W
    unfolding place_initial_stop update_entry set_status calculate_stop
    handle_place_stop_action placeholder_id symbol side quantity stop_level new_peak (h, w) =
        let (placed, (h1, w1)) =
          place_initial_stop around placeholder_id symbol side quantity stop_level (h, w) in
        if placed then (h1, w1) else (
          update_entry placeholder_id
              (λ e.
                set_if (around.clock w1)
                  (track_levels new_peak (calculate_stop e new_peak) e.status) e)
              h1,
          w1,
        )

    -- After an adjustment: only where it was skipped, the levels are taken over.
    unfoldable pub after_adjustment :
        String → D → D → GatewayResult (Option String) × (Handler D × W) → Handler D × W
    unfolding update_entry set_status
    after_adjustment placeholder_id new_stop_level new_peak (ok none, (h, w)) = (
      update_entry placeholder_id
          (λ e. set_if (around.clock w) (active_levels new_peak new_stop_level e.status) e) h,
      w,
    )
    after_adjustment placeholder_id new_stop_level new_peak (result, s) = s

    unfoldable pub execute_price_update_action :
        String → PriceUpdateAction D → Handler D × W → Handler D × W
    unfolding handle_place_stop_action adjust_stop_order after_adjustment update_entry set_status
    execute_price_update_action placeholder_id (place_stop symbol side quantity stop_level new_peak)
          s =
        handle_place_stop_action placeholder_id symbol side quantity stop_level new_peak s
    execute_price_update_action placeholder_id
          (adjust_stop stop_order_id symbol side quantity new_stop_level new_peak) s =
        after_adjustment placeholder_id new_stop_level new_peak (
          adjust_stop_order around placeholder_id stop_order_id symbol new_stop_level side quantity
            s)
    execute_price_update_action placeholder_id (update_state_only new_peak new_stop_level) (h, w) =
        (
          update_entry placeholder_id
              (λ e. set_if (around.clock w) (both_levels new_peak new_stop_level e.status) e) h,
          w,
        )

    abbrev pub perform : String → Option (PriceUpdateAction D) → Handler D × W → Handler D × W
    perform id none s = s
    perform id (some action) s = execute_price_update_action id action s

    abbrev pub action_for : D → Option (TrailingEntry D) → Option (PriceUpdateAction D)
    action_for price none = none
    action_for price (some e) = price_action price e e.status

    -- The turn of one entry in the loop of `on_price_update`.
    unfoldable pub update_one : D → String → Handler D × W → Handler D × W
    unfolding price_action execute_price_update_action get_entry
    update_one price id (h, w) = perform id (action_for price (get_entry id h)) (h, w)

    unfoldable pub update_each : D → List String → Handler D × W → Handler D × W
    unfolding update_one
    update_each price [] s = s
    update_each price (id ∷ ids) s = update_each price ids (update_one price id s)

    -- `on_price_update`; it never returns `Err`.
    unfoldable pub on_price_update : String → D → Handler D × W → Handler D × W
    unfolding update_each active_ids
    on_price_update symbol price (h, w) =
        update_each price (active_ids symbol h.entries_by_placeholder) (h, w)
