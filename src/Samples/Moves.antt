-- ===== src/Samples/Moves.antt =====
-- Moving a resting stop order at a broker that cannot modify orders.
use trading_gateway.Base.{ℕ, [], ◌∷◌, string_eq, nat_eq, ◌≡◌, refl}
use trading_gateway.Base.Map.{lookup, insert, modify}
use trading_gateway.Models.Error.{unsupported_operation, err}
use trading_gateway.Exit.Types.{
  prefix, stop_loss, leg_eq, ActualOrder, ExitEntry, placed, actual_orders, new_entry,
  opposite_side, generate_placeholder_id, open_order,
}
use trading_gateway.Exit.Index.{placeholders, add_to_secondary_index}
use trading_gateway.Exit.Handler.{new_handler, Handler, insert_entry}
use trading_gateway.Samples.Numbers.{Whole, whole, units}
use trading_gateway.Samples.Entries.{entry_order, at_time, idle, broker}
use trading_gateway.Exit.Breaker
use trading_gateway.Exit.Registration.{leg_entry}
use trading_gateway.Exit.Placement.{Market, exit_client_order_id}
use trading_gateway.Exit.Replace.{moved_entry, placed_count, record_moved_leg}
use trading_gateway.Exit.Replace.Outcome.{Outcome, moves_reuse_client_order_id}

abbrev resting : ActualOrder Whole
resting = record {
  order_id = "o0";
  quantity = units 4;
  placed_at = 6;
  status = open_order;
  leg_type = stop_loss;
}

abbrev stop_entry : ExitEntry Whole
stop_entry = record (leg_entry (at_time 5) "p1" entry_order idle stop_loss (units 90)) {
  status = placed (resting ∷ []);
}

abbrev protected : Handler Whole
protected = insert_entry stop_entry idle

-- The broker of the other samples, without order modification.
abbrev plain : Market Whole ℕ
plain = record broker {
  adapter = record broker.adapter {
    modify_order = λ id request n. (err (unsupported_operation "modify_order" "mock"), n);
  };
}

setup : Unit {0}
unfolding new_handler Breaker.new leg_entry new_entry opposite_side insert_entry
    add_to_secondary_index placeholders lookup insert modify generate_placeholder_id prefix
    actual_orders
setup = tt

moves_reuse_client_order_id_example :
    exit_client_order_id (moved_entry (at_time 8) resting "o1" (units 95) stop_entry) (
      placed_count "exit:sl:p1"
        (record_moved_leg (at_time 8) "exit:sl:p1" resting "o1" (units 95) protected))
    ≡ exit_client_order_id stop_entry (placed_count "exit:sl:p1" protected)
unfolding setup
moves_reuse_client_order_id_example =
    moves_reuse_client_order_id (at_time 8) "exit:sl:p1" resting "o1" (units 95) stop_entry
      protected refl refl
