-- ===== src/Samples/Fills.antt =====
-- The exits of one order, from the registration to the fills, on a concrete broker.
use trading_gateway.Exit.Placement.Enough.{place_order_with_retry-ends}
use trading_gateway.Exit.Placement.{place_attempts, Market}
use trading_gateway.Models.Error.{err, order_not_found}
use trading_gateway.Exit.Reachable.{
  run_exits, run_exits-IsConsistent, register_exits, take_fill, cancel_order_exits, clean_up,
}
use trading_gateway.Models.{mock}
use mathlib.Core.Option
use trading_gateway.Base.{
  arith, ℕ, ◌+◌, ◌≤◌, true, none, some, [], ◌∷◌, string_eq, nat_eq, ◌≡◌, refl,
}
use trading_gateway.Base.Map.{lookup, insert, modify}
use trading_gateway.Base.Decimal.{eq_dec}
use trading_gateway.Models.Order.{Order}
use trading_gateway.Exit.Types.{
  prefix, stop_loss, leg_eq, ExitEntry, actual_orders, new_entry, is_pending, opposite_side,
  generate_placeholder_id,
}
use trading_gateway.Exit.Index.{placeholders, add_to_secondary_index}
use trading_gateway.Exit.Handler.{new_handler, Handler, insert_entry, has_pending_for_primary}
use trading_gateway.Samples.Numbers.{Whole, whole, units}
use trading_gateway.Samples.Entries.{
  entry_order, at_time, settings, idle, watching, broker, describe,
}
use trading_gateway.Models.{mock}
use trading_gateway.Exit.Breaker
use trading_gateway.Exit.Registration.{
  register, register_legs, register_leg, leg_entry, link_siblings, validate_price,
}
use trading_gateway.Exit.Invariant.{insert_entry-IsConsistent, IsConsistent}
use trading_gateway.Exit.Invariant.Registered.{new_handler-IsConsistent, register-IsConsistent}
use trading_gateway.Exit.Fill.{
  process_entry_fill, handle_successful_placement, quantity_to_place, target_quantity,
}
use trading_gateway.Exit.Breaker.{opened}
use trading_gateway.Models.{open_status}
use trading_gateway.Exit.Coverage.{calculate_active_coverage, sum_from}
use trading_gateway.Exit.Placement.{fallback_order, place_order_with_retry}
use trading_gateway.Exit.Placement.Attempts.{counting, place_order_with_retry-bounded}
use trading_gateway.Exit.FillEvents.{
  FillEvent, handle_unmatched, handle_fill, process_buffered_fill,
}
use trading_gateway.Exit.Fill.Target.{
  placement_covers_target, process_entry_fill-defers, covered_by, partial_of,
}
use trading_gateway.Exit.Fill.Race.{unbuffered, process_buffered_fill-replays}
use trading_gateway.Exit.Fill.Once.{process_entry_fill-acts_once}

idle-IsConsistent : IsConsistent idle
idle-IsConsistent = new_handler-IsConsistent mock settings

watching-IsConsistent : IsConsistent watching
watching-IsConsistent = register-IsConsistent (at_time 5) "p1" entry_order idle idle-IsConsistent

registered : Unit {0}
unfolding new_handler Breaker.new register register_legs register_leg leg_entry link_siblings
    new_entry validate_price opposite_side insert_entry add_to_secondary_index placeholders lookup
    insert modify generate_placeholder_id prefix
registered = tt

both_wait : placeholders "p1" watching.pending_by_primary ≡ "exit:sl:p1" ∷ "exit:tp:p1" ∷ []
unfolding registered
both_wait = refl

abbrev once : Handler Whole × ℕ
once = (process_entry_fill broker describe "exit:sl:p1" (units 4) (units 10) none none watching 0).1

process_entry_fill-acts_once_example :
    (process_entry_fill broker describe "exit:sl:p1" (units 3) (units 10) none none once.0 once.1).1
    ≡ once
process_entry_fill-acts_once_example =
    process_entry_fill-acts_once broker describe "exit:sl:p1" (units 4) (units 10) none none
      watching 0 (units 3) (units 10) none none refl

abbrev stop_entry : ExitEntry Whole
stop_entry = leg_entry (at_time 5) "p1" entry_order idle stop_loss (units 90)

-- The handler with only that entry.
abbrev stopped : Handler Whole
stopped = insert_entry stop_entry idle

only_entry : Unit {0}
unfolding new_handler Breaker.new leg_entry new_entry opposite_side insert_entry
    add_to_secondary_index placeholders lookup insert modify generate_placeholder_id prefix
    is_pending actual_orders quantity_to_place calculate_active_coverage sum_from fallback_order
    has_pending_for_primary
only_entry = tt

stopped-IsConsistent : IsConsistent stopped
stopped-IsConsistent = insert_entry-IsConsistent stop_entry idle idle-IsConsistent

stop_entry-found : lookup "exit:sl:p1" stopped.pending_by_placeholder ≡ some stop_entry
unfolding only_entry
stop_entry-found = refl

-- What the broker makes of four of the ten units.
abbrev stop_order : Order Whole
stop_order =
    fallback_order 7
      (record entry_order { quantity = quantity_to_place stop_entry (units 4) (units 10) none })
      (record { id = "o1"; client_order_id = none; correlation_id = none; status = open_status })

placement_covers_target_example :
    eq_dec
      (covered_by (
        lookup "exit:sl:p1"
          (handle_successful_placement
            (at_time 7)
            "exit:sl:p1"
            stop_entry
            stop_order
            (partial_of (units 4) (units 10))
            stopped).1.pending_by_placeholder))
      (target_quantity (units 4) (units 10) none)
    ≡ true
unfolding only_entry
placement_covers_target_example =
    placement_covers_target (at_time 7) "exit:sl:p1" stop_entry stop_order stopped (units 4)
      (units 10) none stop_entry-found refl refl

abbrev halted : Handler Whole
halted = record stopped {
  circuit_breaker = record {
    failure_threshold = 3;
    failure_window = 60000;
    recent_failures = [];
    state = opened;
    last_reset_at = none;
    reset_cooldown = 60000;
  };
}

process_entry_fill-defers_example :
    let s =
      (process_entry_fill broker describe "exit:sl:p1" (units 4) (units 10) none none halted 0).1 in
    (s.1 ≡ 0)
    × (Option.map (λ x. x.status) (lookup "exit:sl:p1" s.0.pending_by_placeholder)
        ≡ some stop_entry.status)
unfolding only_entry Breaker.is_open
process_entry_fill-defers_example =
    process_entry_fill-defers broker describe "exit:sl:p1" (units 4) (units 10) none none stop_entry
      halted 0 stop_entry-found refl

abbrev four : FillEvent Whole
four = record {
  filled_qty = units 4;
  total_qty = units 10;
  position_qty = none;
  position_id = none;
}

abbrev register_now : Handler Whole → Handler Whole
register_now h = insert_entry stop_entry h

process_buffered_fill-replays_example :
    let waiting = (handle_unmatched broker describe (λ x. x) "p1" four idle 0).1.0 in
    process_buffered_fill broker describe (λ h. h) "p1" (register_now waiting) 1
    ≡ handle_fill broker describe (λ h. h) "p1" four (unbuffered "p1" (register_now waiting)) 1
unfolding only_entry
process_buffered_fill-replays_example =
    process_buffered_fill-replays broker describe register_now (λ h. h) "p1" four idle 0 1 refl refl

place_order_with_retry-bounded_example :
    (place_order_with_retry (counting broker) settings.retry_delays entry_order (0, 0)).1.0
    ≤ 0 + (2 + 1)
place_order_with_retry-bounded_example =
    place_order_with_retry-bounded broker settings.retry_delays entry_order 0 0

run_exits-IsConsistent_example :
    IsConsistent
      (run_exits broker describe
        (λ h. h)
        (register_exits "p1" entry_order
          ∷ take_fill "p1" four
          ∷ cancel_order_exits "p1"
          ∷ clean_up
          ∷ [])
        (new_handler mock settings, 0)).0
run_exits-IsConsistent_example =
    run_exits-IsConsistent broker describe (λ h. h) (λ h c. c) mock settings
      (register_exits "p1" entry_order
        ∷ take_fill "p1" four
        ∷ cancel_order_exits "p1"
        ∷ clean_up
        ∷ [])
      0

-- A broker that is never reached; it counts the orders that it was sent.
abbrev unreachable : Market Whole ℕ
unreachable = record broker {
  adapter = record broker.adapter { submit_order = λ order n. (err (order_not_found "o1"), n + 1) };
}

place_order_with_retry-ends_example :
    place_attempts unreachable settings.retry_delays entry_order 7 0 0 0
    ≡ place_order_with_retry unreachable settings.retry_delays entry_order 0
place_order_with_retry-ends_example =
    place_order_with_retry-ends unreachable settings.retry_delays entry_order 7 0 (omega arith)

-- It is sent the order three times, for two delays.
sent_thrice : (place_attempts unreachable settings.retry_delays entry_order 7 0 0 0).1 ≡ 3
unfolding place_attempts
sent_thrice = refl
