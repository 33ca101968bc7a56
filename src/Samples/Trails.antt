-- ===== src/Samples/Trails.antt =====
-- Trailing stops on one symbol, with a broker that accepts every order. The state of the world is
-- its time; cancelling an order at the broker takes a hundred.
use trading_gateway.Trailing.Types.{pending}
use trading_gateway.Trailing.Machine.Commands.{register_order}
use trading_gateway.Trailing.Types.{new_entry}
use mathlib.Core.Option
use trading_gateway.Base.{
  ◌^◌, ℕ, ◌+◌, ◌*◌, ◌≤◌, String, true, false, Option, none, some, [], option_eq, string_eq, nat_eq,
  ◌≡◌, refl, arith, min,
}
use trading_gateway.Base.Map.{lookup, insert, remove, modify}
use trading_gateway.Models.Error.{ok, err, order_not_found}
use trading_gateway.Models.{sell, OrderType, trailing_stop, absolute, percent, mock}
use trading_gateway.Trailing.Types.{
  TrailingEntryStatus, TrailingEntry, TrailingStopConfig, active, user_requested, position_closed,
  is_terminal, new_entry, set_status, calculate_stop_price, is_peak_improvement, should_adjust_stop,
  calculate_stop,
}
use trading_gateway.Trailing.Machine.Selection.{IsKeyed}
use trading_gateway.Trailing.Machine.Commands.{run, run-Follows, update_price, scan}
use trading_gateway.Trailing.Peaks.{peak_of, run-keeps_peak}
use trading_gateway.Exit.Placement.{or_default}
use trading_gateway.Trailing.Machine.{behind_peak, Continues, gaining}
use trading_gateway.Trailing.Machine.Turns.{IsQuiet}
use trading_gateway.Trailing.Stops.{calculate_stop_price-tightens, looser}
use trading_gateway.Trailing.Orders.{Surroundings, cancel_async}
use trading_gateway.Trailing.Prices.{on_price_update, on_price_source_disconnected}
use trading_gateway.Trailing.Activation.{on_primary_filled}
use trading_gateway.Trailing.Recovery.{calculate_recovery_backoff}
use trading_gateway.Trailing.Handler.{
  Handler, new_handler, get_entry, register_distance, register_checked, register, cancel,
  decrement_symbol_task, mark_cancelled, cancel_found, forget_primary, insert_entry,
}
use trading_gateway.Models.Order.{OrderRequest}
use trading_gateway.Samples.Numbers.{Whole, whole, units}
use trading_gateway.Samples.Entries.{entry_order, at_time}
use trading_gateway.Trailing.Adjustments.{update_one-adjusts, AdjustOutcome}
use trading_gateway.Trailing.Cancelling.{cancel-twice, CancelTwice}
use trading_gateway.Trailing.Outcomes.{run-final}
use trading_gateway.Trailing.Backoff.{calculate_recovery_backoff-laws}
use trading_gateway.Trailing.Admission.{register-outcome, entry_of, RegisterOutcome}

abbrev pub trailing : OrderRequest Whole
trailing = record entry_order {
  side = sell;
  order_type = trailing_stop;
  trailing_distance = some (units 5);
  trailing_type = some absolute;
}

abbrev pub rules : TrailingStopConfig Whole
rules = record {
  max_pending_entries = 100;
  entry_ttl = 1000000;
  min_adjustment_threshold_pct = units 0;
  recovery_interval = 10000;
  max_recovery_backoff = 300000;
  activation_timeout = 5000;
}

abbrev pub around : Surroundings Whole ℕ
around = record {
  executor = record {
    place_stop_order = λ request w.
        (ok (record { order_id = "s1"; stop_price = request.stop_price; placed_at = w }), w);
    modify_stop_order = λ request w.
        (ok (record { order_id = "s2"; stop_price = request.new_stop_price; placed_at = w }), w);
    cancel_stop_order = λ id symbol w. (ok tt, w + 100);
    get_stop_order_status = λ id symbol w. (err (order_not_found id), w);
  };
  prices = record {
    ensure_subscribed = λ symbol w. (ok tt, w);
    subscribe = λ symbol w. (ok tt, w);
    unsubscribe = λ symbol w. (ok tt, w);
    current_price = λ symbol w. (ok (units 100), w);
    first_update = λ timeout symbol w. (none, w);
  };
  clock = at_time;
  meanwhile = λ w h. h;
}

pub quiet : IsQuiet around
quiet w h = refl

abbrev pub fresh : Handler Whole
fresh = new_handler true mock rules

abbrev pub describe_type : OrderType → String
describe_type t = "type"

abbrev pub one : Handler Whole
one = (register describe_type (at_time 1) "p1" trailing fresh).1

abbrev pub two : Handler Whole
two = (register describe_type (at_time 2) "p2" trailing one).1

abbrev pub begun : Handler Whole × ℕ
begun = (on_primary_filled around "p1" (two, 3)).1

abbrev pub placed : Handler Whole × ℕ
placed = on_price_update around "AAPL" (units 110) begun

abbrev status_at : String → Handler Whole → Option (TrailingEntryStatus Whole)
status_at id h = Option.map (λ e. e.status) (get_entry id h)

-- The initial stop follows the new price, while the peak stays that of the activation.
placed-test : status_at "trailing:p1" placed.0 ≡ some (active "s1" (units 100) (110, 5) 3)
unfolding register on_primary_filled on_price_update get_entry lookup insert new_handler modify
    register_distance register_checked insert_entry
placed-test = refl

abbrev moved_up : Handler Whole × ℕ
moved_up = on_price_update around "AAPL" (units 130) placed

-- A lower price moves the stop back, since the peak was not kept.
loosened-test :
    status_at "trailing:p1" (on_price_update around "AAPL" (units 120) moved_up).0
    ≡ some (active "s2" (units 100) (120, 5) 3)
unfolding register on_primary_filled on_price_update get_entry lookup insert new_handler modify
    register_distance register_checked insert_entry
loosened-test = refl

-- Cancelling an entry that was never tracked ends the tracking of another one.
untracked-test : (cancel (at_time 5) "trailing:p2" user_requested placed.0).1.symbol_tasks ≡ []
unfolding register on_primary_filled on_price_update cancel lookup insert remove new_handler modify
    register_distance register_checked insert_entry cancel_found decrement_symbol_task
    forget_primary
untracked-test = refl

-- After a disconnection the order at the broker is no longer cancelled with the entry.
forgotten-test :
    (cancel_async around "trailing:p1" user_requested
      (on_price_source_disconnected (at_time 4) "AAPL" placed.0, 4)).1.1
    ≡ 4
unfolding register on_primary_filled on_price_update on_price_source_disconnected cancel_async
    lookup insert remove new_handler modify register_distance register_checked insert_entry
    cancel_found decrement_symbol_task forget_primary
forgotten-test = refl

placed-IsKeyed : IsKeyed placed.0.entries_by_placeholder
unfolding register on_primary_filled on_price_update lookup insert new_handler modify
    register_distance register_checked insert_entry
placed-IsKeyed = (refl, refl, (refl, refl, tt))

run-Follows_example :
    Continues ⦃mode = gaining⦄ (lookup "trailing:p1" placed.0.entries_by_placeholder) (
      lookup "trailing:p1"
        (run around (update_price "AAPL" (units 130)) placed).0.entries_by_placeholder)
run-Follows_example =
    run-Follows around quiet (update_price "AAPL" (units 130)) placed.0 placed.1 placed-IsKeyed
      "trailing:p1"

abbrev stopped : Handler Whole
stopped = (cancel (at_time 5) "trailing:p2" user_requested placed.0).1

abbrev stopped_entry : TrailingEntry Whole
stopped_entry =
    mark_cancelled (at_time 5) user_requested (entry_of (at_time 2) "p2" trailing (units 5) one)

stopped-IsKeyed : IsKeyed stopped.entries_by_placeholder
unfolding register on_primary_filled on_price_update lookup insert new_handler cancel remove modify
    register_distance register_checked insert_entry cancel_found decrement_symbol_task
    forget_primary
stopped-IsKeyed = (refl, refl, (refl, refl, tt))

stopped-found : lookup "trailing:p2" stopped.entries_by_placeholder ≡ some stopped_entry
unfolding register on_primary_filled on_price_update lookup insert new_handler cancel remove
    new_entry modify register_distance register_checked insert_entry cancel_found
    decrement_symbol_task forget_primary
stopped-found = refl

stopped-over : is_terminal stopped_entry.status ≡ true
unfolding is_terminal set_status
stopped-over = refl

run-final_example :
    (e : TrailingEntry Whole) × (lookup "trailing:p2"
        (run around scan (stopped, 6)).0.entries_by_placeholder
      ≡ some e)
    × (e.status ≡ stopped_entry.status)
run-final_example =
    run-final around quiet scan stopped 6 "trailing:p2" stopped_entry stopped-IsKeyed stopped-found
      stopped-over refl

-- Registering the order of a cancelled entry again puts a pending entry in its place.
registered_again :
    status_at "trailing:p2" (run around (register_order describe_type "p2" trailing) (stopped, 6)).0
    ≡ some pending
unfolding run register on_primary_filled on_price_update cancel lookup insert remove new_handler
    modify register_distance register_checked insert_entry cancel_found decrement_symbol_task
    forget_primary new_entry get_entry
registered_again = refl

calculate_stop_price-tightens_example :
    looser sell
      (calculate_stop_price (units 100) (units 5) percent sell)
      (calculate_stop_price (units 110) (units 5) percent sell)
    ≡ false
unfolding is_peak_improvement
calculate_stop_price-tightens_example =
    calculate_stop_price-tightens percent sell (units 100) (units 110) (units 5) refl refl

calculate_recovery_backoff-laws_example :
    (calculate_recovery_backoff 10000 300000 0 ≡ 0)
    × (calculate_recovery_backoff 10000 300000 (3 + 1) ≡ min (10000 * 2 ^ min 3 20) 300000)
    × (calculate_recovery_backoff 10000 300000 (3 + 1)
        ≤ calculate_recovery_backoff 10000 300000 (3 + 2))
calculate_recovery_backoff-laws_example =
    calculate_recovery_backoff-laws 10000 300000 3 (omega arith)

register-outcome_example : RegisterOutcome describe_type (at_time 1) "p1" trailing fresh
register-outcome_example = register-outcome describe_type (at_time 1) "p1" trailing fresh

abbrev second_entry : TrailingEntry Whole
second_entry = entry_of (at_time 2) "p2" trailing (units 5) one

second-found : lookup "trailing:p2" placed.0.entries_by_placeholder ≡ some second_entry
unfolding register on_primary_filled on_price_update lookup insert new_handler modify
    register_distance register_checked insert_entry new_entry
second-found = refl

second-lives : is_terminal second_entry.status ≡ false
unfolding is_terminal new_entry
second-lives = refl

cancel-twice_example :
    CancelTwice
      (at_time 5)
      (at_time 6)
      "trailing:p2"
      user_requested
      position_closed
      placed.0
      second_entry
cancel-twice_example =
    cancel-twice (at_time 5) (at_time 6) "trailing:p2" user_requested position_closed placed.0
      second_entry second-found second-lives

abbrev first_status : TrailingEntryStatus Whole
first_status = active "s1" (units 100) (110, 5) 3

abbrev pub first_entry : TrailingEntry Whole
first_entry = record (entry_of (at_time 1) "p1" trailing (units 5) fresh) {
  status = first_status;
  updated_at = some 3;
  version = 2;
}

first-found : lookup "trailing:p1" placed.0.entries_by_placeholder ≡ some first_entry
unfolding register on_primary_filled on_price_update lookup insert new_handler modify
    register_distance register_checked insert_entry new_entry
first-found = refl

-- The first entry after a higher price: its stop moved, its peak stayed.
abbrev raised_entry : TrailingEntry Whole
raised_entry = or_default first_entry (
    lookup "trailing:p1"
      (run around (update_price "AAPL" (units 130)) placed).0.entries_by_placeholder)

raised-found :
    lookup "trailing:p1"
      (run around (update_price "AAPL" (units 130)) placed).0.entries_by_placeholder
    ≡ some raised_entry
unfolding run register on_primary_filled on_price_update lookup insert new_handler modify
    register_distance register_checked insert_entry new_entry
raised-found = refl

raised-peak : peak_of raised_entry.status ≡ some (units 100)
unfolding run register on_primary_filled on_price_update lookup insert new_handler modify
    register_distance register_checked insert_entry new_entry
raised-peak = refl

run-keeps_peak_example : behind_peak first_entry.side (units 100) (units 100) ≡ false
run-keeps_peak_example =
    run-keeps_peak around quiet (update_price "AAPL" (units 130)) placed.0 placed.1 "trailing:p1"
      first_entry raised_entry (units 100) (units 100) placed-IsKeyed refl first-found raised-found
      refl raised-peak

should-move : should_adjust_stop (110, 5) (calculate_stop first_entry (units 130)) ≡ true
unfolding should_adjust_stop calculate_stop new_entry
should-move = refl

improves : is_peak_improvement (units 100) (units 130) first_entry.side ≡ true
unfolding is_peak_improvement new_entry
improves = refl

update_one-adjusts_example :
    AdjustOutcome around quiet
      (units 130)
      "trailing:p1"
      placed.0
      placed.1
      first_entry
      "s1"
      (units 100)
      (110, 5)
      3
update_one-adjusts_example =
    update_one-adjusts around quiet (units 130) "trailing:p1" placed.0 placed.1 first_entry "s1"
      (units 100) (110, 5) 3 first-found refl improves should-move
