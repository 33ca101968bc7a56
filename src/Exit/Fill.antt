-- ===== src/Exit/Fill.antt =====
-- crates/core/src/exit_management/fill_handler.rs: what one fill of the entry order does to one of
-- its exit entries. `describe` stands for the derived `Debug` text of a status.
pub mod Once
pub mod Legs
pub mod Consistency
pub mod Race
pub mod Target
use trading_gateway.Base.{
  ℕ, ◌+◌, ◌-◌, ◌*◌, ◌≤◌, ◌<◌, String, ◌⧺◌, Bool, true, false, ◌&&◌, ◌||◌, not, Option, none, some,
  List, [], ◌∷◌, ◌++◌, length, ◌==◌, string_eq, nat_eq, if◌then◌else◌, ◌≡◌, ◌↔◌, ◌⊎◌,
}
use trading_gateway.Base.Map.{lookup, modify}
use trading_gateway.Base.Decimal.{Decimal, sub_dec, lt_dec, le_dec}
use trading_gateway.Models.Order.{Order}
use trading_gateway.Exit.Types.{
  Now, ExitLegType, stop_loss, leg_eq, ActualOrder, ExitEntry, ExitEntryStatus, pending,
  partially_triggered, placed, failed, cancelled, expired, actual_orders, set_status,
  PlacementOutcome, success, placement_failed, already_processed, deferred, PlacementResult,
  ErrorCategory, PlaceOrderError, place_failed, wash_trade, insufficient_balance, open_order,
  should_count_toward_breaker,
}
use trading_gateway.Exit.Handler.{Handler}
use trading_gateway.Exit.Placement.{
  Market, Placement, submitted, refused, place_order_with_retry, build_exit_order_request,
}
use trading_gateway.Exit.Coverage.{calculate_active_coverage}
use trading_gateway.Exit.Breaker

module _ {D : Type 0} where
  abbrev pub update_entry : String → (ExitEntry D → ExitEntry D) → Handler D → Handler D
  update_entry id f h = record h { pending_by_placeholder = modify id f h.pending_by_placeholder }

  abbrev pub with_attempt : Now → D → ExitEntry D → ExitEntry D
  with_attempt now qty e = record e {
    last_attempted_fill_qty = some qty;
    updated_at = some now.utc;
  }

  unfoldable pub update_last_attempted_fill_qty : Now → String → D → Handler D → Handler D
  update_last_attempted_fill_qty now id fill_qty h = update_entry id (with_attempt now fill_qty) h

  abbrev pub with_position : String → ExitEntry D → ExitEntry D
  with_position position e = record e { position_id = some position }

  unfoldable pub record_position_id : String → Option String → Handler D → Handler D
  record_position_id id none h = h
  record_position_id id (some position) h = update_entry id (with_position position) h

  abbrev pub partial_status : ActualOrder D → D → D → ExitEntryStatus D → ExitEntryStatus D
  partial_status new_order filled total pending = partially_triggered filled total (new_order ∷ [])
  partial_status new_order filled total (partially_triggered f t os) =
      partially_triggered filled t (os ++ new_order ∷ [])
  partial_status new_order filled total status = status

  abbrev pub with_partial : Now → ActualOrder D → D → D → ExitEntry D → ExitEntry D
  with_partial now new_order filled total e = record e {
    status = partial_status new_order filled total e.status;
    updated_at = some now.utc;
  }

  unfoldable pub update_entry_partial_fill :
      Now → String → ActualOrder D → D → D → Handler D → Handler D
  update_entry_partial_fill now id new_order filled total h =
      update_entry id (with_partial now new_order filled total) h

  abbrev pub triggered_orders : ExitEntryStatus D → List (ActualOrder D)
  triggered_orders (partially_triggered f t os) = os
  triggered_orders _ = []

  abbrev pub with_placed : Now → ActualOrder D → ExitEntry D → ExitEntry D
  with_placed now new_order e = record e {
    status = placed (triggered_orders e.status ++ new_order ∷ []);
    updated_at = some now.utc;
  }

  unfoldable pub update_entry_to_placed : Now → String → ActualOrder D → Handler D → Handler D
  update_entry_to_placed now id new_order h = update_entry id (with_placed now new_order) h

  abbrev live_orders : ExitEntryStatus D → List (ActualOrder D)
  live_orders (partially_triggered f t os) = os
  live_orders (placed os) = os
  live_orders _ = []

  abbrev pub with_failure : Now → String → ℕ → ExitEntry D → ExitEntry D
  with_failure now error_message retry_count e =
      set_status now (failed error_message retry_count now.utc (live_orders e.status)) e

  unfoldable pub update_entry_to_failed : Now → String → String → ℕ → Handler D → Handler D
  unfolding set_status
  update_entry_to_failed now id error_message retry_count h =
      update_entry id (with_failure now error_message retry_count) h

  abbrev pub terminal_status : ExitEntryStatus D → Bool
  terminal_status (cancelled t r) = true
  terminal_status (failed e r t os) = true
  terminal_status (expired t) = true
  terminal_status _ = false

  abbrev pub result : String → ExitLegType → PlacementOutcome D → PlacementResult D
  result id leg outcome = record { placeholder_id = id; order_type = leg; outcome = outcome }

module _ {D : Type 0} ⦃dec : Decimal D⦄ where
  abbrev pub attempted : D → Option D → Bool
  attempted filled_qty none = false
  attempted filled_qty (some last) = le_dec filled_qty last

  -- The checks of `validate_entry_for_fill` on an entry: `none` lets the fill pass.
  unfoldable pub entry_verdict :
      (ExitEntryStatus D → String) → String → D → ExitEntry D → Option (PlacementResult D)
  entry_verdict describe id filled_qty e =
      if terminal_status e.status
      then some
          (result id e.order_type (deferred ("Entry in terminal state: " ⧺ describe e.status)))
      else if attempted filled_qty e.last_attempted_fill_qty
      then some (result id e.order_type already_processed)
      else none

  abbrev or_else : Option D → D → D
  or_else none d = d
  or_else (some q) d = q

  -- `target_qty` of `calculate_exit_quantity`.
  abbrev pub target_quantity : D → D → Option D → D
  target_quantity filled_qty total_qty position_qty =
      if lt_dec filled_qty total_qty then filled_qty else or_else position_qty total_qty

  -- `qty_to_place` of `calculate_exit_quantity`.
  unfoldable pub quantity_to_place : ExitEntry D → D → D → Option D → D
  unfolding actual_orders calculate_active_coverage
  quantity_to_place e filled_qty total_qty position_qty =
      sub_dec (target_quantity filled_qty total_qty position_qty)
        (calculate_active_coverage (actual_orders e.status) e.order_type)

  abbrev pub placed_order : Now → ExitEntry D → Order D → ActualOrder D
  placed_order now e order = record {
    order_id = order.id;
    quantity = order.quantity;
    placed_at = now.utc;
    status = open_order;
    leg_type = e.order_type;
  }

  unfoldable pub handle_successful_placement :
      Now
      → String
      → ExitEntry D
      → Order D
      → Option (D × D)
      → Handler D
      → PlacementResult D × Handler D
  unfolding update_entry_partial_fill update_entry_to_placed
  handle_successful_placement now id e order partial_fill h =
      let new_order = placed_order now e order in
      let done : PlacementResult D = result id e.order_type (success order.id order) in
      elim partial_fill [
        | some f ↦ (done, update_entry_partial_fill now id new_order f.0 f.1 h)
        | none ↦ (done, update_entry_to_placed now id new_order h)
      ]

  abbrev pub count_failure : Now → ErrorCategory → Handler D → Handler D
  count_failure now category h =
      if should_count_toward_breaker category
      then record h { circuit_breaker = Breaker.record_failure now.instant h.circuit_breaker }
      else h

  unfoldable pub handle_placement_error :
      Now → String → ExitEntry D → PlaceOrderError D → ℕ → Handler D → PlacementResult D × Handler D
  unfolding should_count_toward_breaker update_entry_to_failed Breaker.record_failure
  handle_placement_error now id e (insufficient_balance message asked available) retry_count h =
      (result id e.order_type (deferred ("Insufficient balance: " ⧺ message)), h)
  handle_placement_error now id e (wash_trade message) retry_count h =
      (result id e.order_type (deferred ("Wash trade prevention: " ⧺ message)), h)
  handle_placement_error now id e (place_failed message count category) retry_count h = (
    result id e.order_type (placement_failed message retry_count),
    update_entry_to_failed now id message retry_count (count_failure now category h),
  )

  abbrev pub settle :
      Now
      → String
      → ExitEntry D
      → Option (D × D)
      → Handler D
      → Placement D
      → PlacementResult D × Handler D
  settle now id e partial_fill h (submitted order retry_count) =
      handle_successful_placement now id e order partial_fill h
  settle now id e partial_fill h (refused error retry_count) =
      handle_placement_error now id e error retry_count h

  module _ {W : Type 0} (market : Market D W) where
    -- `process_entry_fill`, behind the guards.
    unfoldable pub place_exit :
        String
        → ExitEntry D
        → D
        → D
        → D
        → Option String
        → Handler D
        → W
        → PlacementResult D × (Handler D × W)
    unfolding record_position_id build_exit_order_request place_order_with_retry
        handle_successful_placement handle_placement_error
    place_exit id e quantity filled_qty total_qty position_id h w =
        let h1 = record_position_id id position_id h in
        let order =
          build_exit_order_request e quantity (length (actual_orders e.status)) position_id in
        let (placement, w1) = place_order_with_retry market h.config.retry_delays order w in
        let partial_fill =
          if lt_dec filled_qty total_qty then some (filled_qty, total_qty) else none in
        let (outcome, h2) = settle (market.clock w1) id e partial_fill h1 placement in
        (outcome, (h2, w1))

    -- The part of `process_entry_fill` behind `validate_entry_for_fill`.
    unfoldable pub attempt_fill :
        String
        → ExitEntry D
        → D
        → D
        → Option D
        → Option String
        → Handler D
        → W
        → PlacementResult D × (Handler D × W)
    unfolding update_last_attempted_fill_qty quantity_to_place Breaker.is_open place_exit
    attempt_fill id e filled_qty total_qty position_qty position_id h w =
        let h1 = update_last_attempted_fill_qty (market.clock w) id filled_qty h in
        let quantity = quantity_to_place e filled_qty total_qty position_qty in
        let min_qty = h.config.min_exit_order_qty in
        if lt_dec quantity min_qty
        then (
          result id e.order_type (
              deferred
                ("Quantity " ⧺ (dec.show quantity ⧺ (" below minimum " ⧺ dec.show min_qty)))),
          (h1, w),
        )
        else if Breaker.is_open h1.circuit_breaker
        then (result id e.order_type (deferred "Circuit breaker open"), (h1, w))
        else place_exit id e quantity filled_qty total_qty position_id h1 w

    unfoldable pub process_entry_fill :
        (ExitEntryStatus D → String)
        → String
        → D
        → D
        → Option D
        → Option String
        → Handler D
        → W
        → PlacementResult D × (Handler D × W)
    unfolding entry_verdict attempt_fill
    process_entry_fill describe id filled_qty total_qty position_qty position_id h w =
        elim (lookup id h.pending_by_placeholder) [
          | none ↦ (result id stop_loss (placement_failed "Entry not found" 0), (h, w))
          | some e ↦ elim (entry_verdict describe id filled_qty e) [
            | some verdict ↦ (verdict, (h, w))
            | none ↦ attempt_fill id e filled_qty total_qty position_qty position_id h w
          ]
        ]
