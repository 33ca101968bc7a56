-- ===== src/Samples/Removals.antt =====
-- Cancelling, closing, clearing and moving the exits of one order.
use trading_gateway.Base.{◌++◌, some, [], ◌∷◌, string_eq, nat_eq, ◌≡◌, refl}
use trading_gateway.Base.Map.{keys, lookup, insert, modify}
use trading_gateway.Exit.Types.{
  prefix, stop_loss, leg_eq, ActualOrder, ExitEntry, failed, actual_orders, new_entry, is_pending,
  opposite_side, generate_placeholder_id, open_order,
}
use trading_gateway.Exit.Index.{placeholders, add_to_secondary_index}
use trading_gateway.Exit.Handler.{new_handler, Handler, insert_entry}
use trading_gateway.Samples.Numbers.{Whole, whole, units}
use trading_gateway.Samples.Entries.{entry_order, at_time, settings, idle, broker}
use trading_gateway.Models.{mock}
use trading_gateway.Exit.Breaker
use trading_gateway.Exit.Registration.{leg_entry}
use trading_gateway.Exit.Invariant.{IsConsistent, insert_entry-IsConsistent}
use trading_gateway.Exit.Invariant.Registered.{new_handler-IsConsistent}
use trading_gateway.Exit.Cancellation.{cancel_entry, handle_cancellation, cancel_for_position_close}
use trading_gateway.Exit.Cancellation.Handover.{
  to_cancel, cancels_waiting, cancel_entry-hands_over, stop_waiting,
  handle_cancellation-stops_waiting,
}
use trading_gateway.Exit.Cancellation.Closing.{
  logging, live_ids_all, status_of, closed_status, cancel_for_position_close-status,
  cancel_for_position_close-calls,
}

abbrev stop_entry : ExitEntry Whole
stop_entry = leg_entry (at_time 5) "p1" entry_order idle stop_loss (units 90)

-- A failed leg with an order that is still live.
abbrev live : ActualOrder Whole
live = record {
  order_id = "o1";
  quantity = units 4;
  placed_at = 6;
  status = open_order;
  leg_type = stop_loss;
}

abbrev failed_entry : ExitEntry Whole
failed_entry = record stop_entry { status = failed "rejected" 2 7 (live ∷ []) }

abbrev stopped : Handler Whole
stopped = insert_entry stop_entry idle

abbrev broken : Handler Whole
broken = insert_entry failed_entry idle

setup : Unit {0}
unfolding new_handler Breaker.new leg_entry new_entry opposite_side insert_entry
    add_to_secondary_index placeholders lookup insert modify generate_placeholder_id prefix
    is_pending actual_orders
setup = tt

idle-IsConsistent : IsConsistent idle
idle-IsConsistent = new_handler-IsConsistent mock settings

stopped-IsConsistent : IsConsistent stopped
stopped-IsConsistent = insert_entry-IsConsistent stop_entry idle idle-IsConsistent

cancel_entry-hands_over_example :
    (to_cancel (cancel_entry (at_time 9) "exit:sl:p1" broken).0 ≡ actual_orders failed_entry.status)
    × ((cancel_entry (at_time 9) "exit:sl:p1" broken).1
        ≡ cancels_waiting (at_time 9) "exit:sl:p1" failed_entry broken)
unfolding setup
cancel_entry-hands_over_example =
    cancel_entry-hands_over (at_time 9) "exit:sl:p1" failed_entry broken refl

handle_cancellation-stops_waiting_example :
    lookup "exit:sl:p1" (handle_cancellation (at_time 9) "p1" stopped).1.pending_by_placeholder
    ≡ some (stop_waiting (at_time 9) stop_entry)
unfolding setup
handle_cancellation-stops_waiting_example =
    handle_cancellation-stops_waiting (at_time 9) "p1" "exit:sl:p1" stop_entry stopped
      stopped-IsConsistent refl refl

cancel_for_position_close-status_example :
    status_of (
      lookup "exit:sl:p1"
        (cancel_for_position_close broker.adapter
          (at_time 9)
          "AAPL"
          broken
          0).1.0.pending_by_placeholder)
    ≡ closed_status (at_time 9) "AAPL" (lookup "exit:sl:p1" broken.pending_by_placeholder)
cancel_for_position_close-status_example =
    cancel_for_position_close-status broker.adapter (at_time 9) "AAPL" "exit:sl:p1" broken 0

cancel_for_position_close-calls_example :
    (cancel_for_position_close (logging broker.adapter) (at_time 9) "AAPL" broken ([], 0)).1.1.0
    ≡ [] ++ live_ids_all "AAPL" broken.pending_by_placeholder (keys broken.pending_by_placeholder)
cancel_for_position_close-calls_example =
    cancel_for_position_close-calls broker.adapter (at_time 9) "AAPL" broken [] 0
