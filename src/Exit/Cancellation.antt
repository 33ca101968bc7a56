-- ===== src/Exit/Cancellation.antt =====
-- crates/core/src/exit_management/cancellation.rs: cancelling exit entries, by id, with their entry
-- order or before a position is closed, and removing failed and expired entries. Iterating over a
-- concurrent map lists its keys, and reads each entry as it stands.
pub mod Handover
pub mod Closing
pub mod Removal
use mathlib.Core.Option
use trading_gateway.Base.{
  ℕ, ◌-◌, String, Bool, true, false, Option, none, some, List, [], ◌∷◌, length, is_empty, ltb, ◌==◌,
  string_eq, nat_eq, filter_map, if◌then◌else◌,
}
use trading_gateway.Base.Map.{Map, lookup, remove, modify, keys}
use trading_gateway.Models.Error.{GatewayResult, ok, err, order_not_found}
use trading_gateway.Models.Adapter.{Adapter}
use trading_gateway.Exit.Types.{
  Now, leg_eq, ActualOrder, ExitEntry, ExitEntryStatus, pending, partially_triggered, placed,
  failed, cancelled, expired, set_status, is_pending, CancellationReason, primary_cancelled,
  user_requested, position_closed, CancelledExitInfo, CancelExitResult, cancelled_pending,
  needs_cancel_at_provider, needs_cancel_partially_triggered, needs_cancel_failed, already_terminal,
}
use trading_gateway.Exit.Index.{
  Index, placeholders, add_to_secondary_index, remove_batch_from_secondary_index,
}
use trading_gateway.Exit.Handler.{Handler}
use trading_gateway.Models.{header_value}

-- Takes removed ids out of the secondary index, one entry order after the other.
unfoldable pub forget_removed : Index → Index → Index
unfolding remove_batch_from_secondary_index
forget_removed [] index = index
forget_removed ((primary_order_id, removed_ids) ∷ removals) index =
    forget_removed removals (remove_batch_from_secondary_index primary_order_id removed_ids index)

module _ {D : Type 0} where
  unfoldable pub cancelled_info : String → ExitEntry D → CancelledExitInfo D
  unfolding header_value
  cancelled_info placeholder_id e = record {
    placeholder_id = placeholder_id;
    primary_order_id = e.primary_order_id;
    leg_type = e.order_type;
    platform = header_value e.platform;
    symbol = e.symbol;
    side = e.side;
    trigger_price = e.trigger_price;
    quantity = e.quantity;
  }

  abbrev pub mark_cancelled : Now → CancellationReason → ExitEntry D → ExitEntry D
  mark_cancelled now reason e = set_status now (cancelled now.utc reason) e

  abbrev pub set_cancelled : Now → CancellationReason → String → Handler D → Handler D
  set_cancelled now reason id h = record h {
    pending_by_placeholder = modify id (mark_cancelled now reason) h.pending_by_placeholder;
  }

  -- The match of `cancel_entry` on the status.
  unfoldable pub cancel_by_status :
      Now
      → String
      → CancelledExitInfo D
      → ExitEntryStatus D
      → Handler D
      → GatewayResult (CancelExitResult D) × Handler D
  unfolding set_status
  cancel_by_status now id info pending h =
      (ok (cancelled_pending info), set_cancelled now user_requested id h)
  cancel_by_status now id info (partially_triggered f t []) h =
      (ok (cancelled_pending info), set_cancelled now user_requested id h)
  cancel_by_status now id info (partially_triggered f t (o ∷ os)) h =
      (ok (needs_cancel_partially_triggered (o ∷ os) info), h)
  cancel_by_status now id info (placed os) h = (ok (needs_cancel_at_provider os info), h)
  cancel_by_status now id info (failed e r t []) h = (ok (already_terminal (failed e r t [])), h)
  cancel_by_status now id info (failed e r t (o ∷ os)) h =
      (ok (needs_cancel_failed (o ∷ os) info), h)
  cancel_by_status now id info (cancelled t r) h = (ok (already_terminal (cancelled t r)), h)
  cancel_by_status now id info (expired t) h = (ok (already_terminal (expired t)), h)

  unfoldable pub cancel_entry :
      Now → String → Handler D → GatewayResult (CancelExitResult D) × Handler D
  unfolding cancelled_info cancel_by_status
  cancel_entry now placeholder_id h = elim (lookup placeholder_id h.pending_by_placeholder) [
    | none ↦ (err (order_not_found placeholder_id), h)
    | some e ↦ cancel_by_status now placeholder_id (cancelled_info placeholder_id e) e.status h
  ]

  -- The loop of `handle_cancellation_internal`.
  unfoldable pub cancel_each :
      Now
      → List String
      → Map String (ExitEntry D)
      → List (CancelledExitInfo D) × Map String (ExitEntry D)
  unfolding cancelled_info set_status
  cancel_each now [] m = ([], m)
  cancel_each now (id ∷ ids) m =
      let skipped = cancel_each now ids m in
      let rest = cancel_each now ids (modify id (mark_cancelled now primary_cancelled) m) in
      elim (lookup id m) [
        | none ↦ skipped
        | some e ↦ if is_pending e then (cancelled_info id e ∷ rest.0, rest.1) else skipped
      ]

  unfoldable pub handle_cancellation :
      Now → String → Handler D → List (CancelledExitInfo D) × Handler D
  unfolding placeholders cancel_each
  handle_cancellation now primary_order_id h =
      let ids = placeholders primary_order_id h.pending_by_primary in
      let h1 = record h { pending_by_primary = remove primary_order_id h.pending_by_primary } in
      if is_empty ids
      then ([], h1)
      else let done = cancel_each now ids h1.pending_by_placeholder in
        (done.0, record h1 { pending_by_placeholder = done.1 })

  -- What stands in the way of closing a position: the orders to cancel for it at the exchange.
  abbrev pub blocking_orders : ExitEntryStatus D → Option (List (ActualOrder D))
  blocking_orders pending = some []
  blocking_orders (placed os) = some os
  blocking_orders (partially_triggered f t os) = some os
  blocking_orders (failed e r t []) = none
  blocking_orders (failed e r t (o ∷ os)) = some (o ∷ os)
  blocking_orders _ = none

  abbrev pub blocks :
      String → Map String (ExitEntry D) → String → Option (String × List (ActualOrder D))
  blocks symbol m id = elim (lookup id m) [
    | none ↦ none
    | some e ↦
        if e.symbol == symbol then Option.map (λ os. (id, os)) (blocking_orders e.status) else none
  ]

  -- `entries_to_cancel`
  abbrev pub entries_to_cancel :
      String → Map String (ExitEntry D) → List (String × List (ActualOrder D))
  entries_to_cancel symbol m = filter_map (blocks symbol m) (keys m)

  module _ {W : Type 0} (adapter : Adapter D W) where
    -- A failed cancellation is logged, and the next order is tried.
    unfoldable pub cancel_orders : List (ActualOrder D) → W → W
    cancel_orders [] w = w
    cancel_orders (o ∷ os) w = cancel_orders os (adapter.cancel_order o.order_id w).1

    unfoldable pub close_each :
        Now
        → List (String × List (ActualOrder D))
        → Map String (ExitEntry D)
        → W
        → List (CancelledExitInfo D) × (Map String (ExitEntry D) × W)
    unfolding cancel_orders cancelled_info set_status
    close_each now [] m w = ([], (m, w))
    close_each now ((id, os) ∷ work) m w =
        let (infos, (m', w')) =
          close_each now work (modify id (mark_cancelled now position_closed) m)
            (cancel_orders os w) in
        elim (lookup id m) [
          | none ↦ (infos, (m', w'))
          | some e ↦ (cancelled_info id e ∷ infos, (m', w'))
        ]

    unfoldable pub cancel_for_position_close :
        Now → String → Handler D → W → List (CancelledExitInfo D) × (Handler D × W)
    unfolding close_each
    cancel_for_position_close now symbol h w =
        let (infos, (m, w')) =
          close_each now (entries_to_cancel symbol h.pending_by_placeholder)
            h.pending_by_placeholder w in
        (infos, (record h { pending_by_placeholder = m }, w'))

  -- Removes entries, and groups their ids by entry order.
  unfoldable pub remove_grouped :
      List String → Map String (ExitEntry D) → Index → Map String (ExitEntry D) × Index
  unfolding add_to_secondary_index
  remove_grouped [] m removals = (m, removals)
  remove_grouped (id ∷ ids) m removals = elim (lookup id m) [
    | none ↦ remove_grouped ids (remove id m) removals
    | some e ↦
        remove_grouped ids (remove id m) (add_to_secondary_index e.primary_order_id id removals)
  ]

  unfoldable pub remove_entries : List String → Handler D → ℕ × Handler D
  unfolding remove_grouped forget_removed
  remove_entries ids h =
      if is_empty ids
      then (0, h)
      else let (m, removals) = remove_grouped ids h.pending_by_placeholder [] in
        (
          length ids,
          record h {
            pending_by_placeholder = m;
            pending_by_primary = forget_removed removals h.pending_by_primary;
          },
        )

  abbrev pub failed_status : ExitEntryStatus D → Bool
  failed_status (failed e r t os) = true
  failed_status _ = false

  abbrev pub failed_key : Map String (ExitEntry D) → String → Option String
  failed_key m id = elim (lookup id m) [
    | none ↦ none
    | some e ↦ if failed_status e.status then some id else none
  ]

  -- `clear_failed_entries_internal`
  unfoldable pub clear_failed_entries : Handler D → ℕ × Handler D
  unfolding remove_entries
  clear_failed_entries h =
      remove_entries
        (filter_map (failed_key h.pending_by_placeholder) (keys h.pending_by_placeholder)) h

  abbrev pub is_expired : Now → ℕ → ExitEntry D → Bool
  is_expired now entry_ttl e = ltb entry_ttl (now.instant - e.created_at)

  abbrev pub expired_key : Now → ℕ → Map String (ExitEntry D) → String → Option String
  expired_key now entry_ttl m id = elim (lookup id m) [
    | none ↦ none
    | some e ↦ if is_expired now entry_ttl e then some e.placeholder_id else none
  ]

  unfoldable pub cleanup_expired_entries : Now → Handler D → ℕ × Handler D
  unfolding remove_entries
  cleanup_expired_entries now h =
      remove_entries
        (filter_map (expired_key now h.config.entry_ttl h.pending_by_placeholder)
          (keys h.pending_by_placeholder))
        h
