-- ===== src/Samples/States.antt =====
-- The state manager with two orders of one OCO group and one position.
use trading_gateway.Base.{
  String, false, Option, none, some, [], ◌∷◌, option_eq, string_eq, nat_eq, ◌≡◌, refl,
}
use trading_gateway.Base.Map.{lookup, insert}
use trading_gateway.Models.Order.{Order}
use trading_gateway.Exit.Types.{leg_eq}
use trading_gateway.Exit.Index.{member}
use trading_gateway.Samples.Numbers.{Whole, whole, units}
use trading_gateway.Samples.Entries.{entry_order}
use trading_gateway.Models.{long, open_status}
use trading_gateway.Models.Position.{Position}
use trading_gateway.Exit.Placement.{fallback_order}
use trading_gateway.State.{
  StateManager, sync_from_provider, upsert_order, remove_order, upsert_position, new_state,
  upsert_orders, upsert_positions, join_group, add_id, group_members,
}
use trading_gateway.State.Reachable.{
  apply_calls, apply_calls-links, call_upsert_order, call_upsert_position, call_remove_order,
}
use trading_gateway.State.Links.{IsLinked, IsIndexed, sync_from_provider-links, remove_order-leaves}

abbrev order : String → Option String → Order Whole
order id group =
    record (fallback_order 3 entry_order
      (record { id = id; client_order_id = none; correlation_id = none; status = open_status })) {
        oco_group_id = group;
      }

abbrev position : String → Position Whole
position symbol = record {
  id = "p";
  symbol = symbol;
  side = long;
  quantity = units 4;
  average_entry_price = units 100;
  current_price = units 101;
  unrealized_pnl = units 4;
  realized_pnl = units 0;
  margin_mode = none;
  leverage = none;
  liquidation_price = none;
  opened_at = 1;
  updated_at = 2;
}

abbrev synced : StateManager Whole
synced =
    sync_from_provider (order "o1" (some "g") ∷ order "o2" (some "g") ∷ []) (position "AAPL" ∷ [])
      new_state

synced-links : IsLinked synced × IsIndexed synced
synced-links =
    sync_from_provider-links (order "o1" (some "g") ∷ order "o2" (some "g") ∷ [])
      (position "AAPL" ∷ []) new_state

remove_order-leaves_example :
    member "o1" (group_members (lookup "g" (remove_order "o1" synced).1.oco_groups)) ≡ false
unfolding sync_from_provider upsert_orders upsert_positions upsert_order upsert_position new_state
    join_group add_id lookup insert fallback_order
remove_order-leaves_example = remove_order-leaves "o1" "g" synced refl

apply_calls-links_example :
    let s =
      apply_calls
        (call_upsert_order (order "o1" (some "g"))
          ∷ call_upsert_order (order "o1" (some "other"))
          ∷ call_upsert_position (position "AAPL")
          ∷ call_upsert_position (position "MSFT")
          ∷ call_remove_order "o1"
          ∷ [])
        new_state in
    IsLinked s × IsIndexed s
apply_calls-links_example = apply_calls-links (
    call_upsert_order (order "o1" (some "g"))
    ∷ call_upsert_order (order "o1" (some "other"))
    ∷ call_upsert_position (position "AAPL")
    ∷ call_upsert_position (position "MSFT")
    ∷ call_remove_order "o1"
    ∷ [])
