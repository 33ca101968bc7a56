-- ===== src/Exit/Cancellation/Handover.antt =====
-- What cancelling leaves behind (crates/core/src/exit_management/cancellation.rs): the orders that
-- the caller still has to cancel, and the entries of a cancelled entry order.
use mathlib.Core.Option
use trading_gateway.Base.{
  String, ◌&&◌, some, List, [], ◌∷◌, is_empty, string_eq, nat_eq, if◌then◌else◌, ◌≡◌, inl, inr,
  refl, arith, Bool-cases, Option-cases,
}
use trading_gateway.Base.Map.{Map, lookup, modify, lookup-modify}
use trading_gateway.Models.Error.{GatewayResult, ok}
use trading_gateway.Exit.Types.{
  Now, leg_eq, ActualOrder, ExitEntry, actual_orders, set_status, is_pending, primary_cancelled,
  user_requested, CancelExitResult, needs_cancel_at_provider, needs_cancel_partially_triggered,
  needs_cancel_failed,
}
use trading_gateway.Exit.Index.{placeholders, member, placeholders-remove}
use trading_gateway.Exit.Handler.{Handler}
use trading_gateway.Exit.Cancellation.{
  cancel_entry, cancel_by_status, mark_cancelled, set_cancelled, cancel_each, handle_cancellation,
}
use trading_gateway.Exit.Invariant.{IsConsistent}

module _ {D : Type 0} where
  -- The orders that a result of `cancel_entry` asks its caller to cancel at the exchange.
  abbrev pub to_cancel : GatewayResult (CancelExitResult D) → List (ActualOrder D)
  to_cancel (ok (needs_cancel_at_provider os info)) = os
  to_cancel (ok (needs_cancel_partially_triggered os info)) = os
  to_cancel (ok (needs_cancel_failed os info)) = os
  to_cancel _ = []

  -- Whether the maps changed only by cancelling an entry that waits and has no order.
  abbrev pub cancels_waiting : Now → String → ExitEntry D → Handler D → Handler D
  cancels_waiting now id e h =
      if is_pending e && is_empty (actual_orders e.status)
      then set_cancelled now user_requested id h
      else h

  -- Cancelling an existing entry hands exactly the orders that the entry tracks to the caller, and
  -- marks the entry cancelled exactly if it waits for fills and tracks no order, so that no tracked
  -- order is lost.
  pub cancel_entry-hands_over :
      (now : Now) (id : String) (e : ExitEntry D) (h : Handler D)
      → lookup id h.pending_by_placeholder ≡ some e
      → (to_cancel (cancel_entry now id h).0 ≡ actual_orders e.status)
        × ((cancel_entry now id h).1 ≡ cancels_waiting now id e h)
  unfolding cancel_entry cancel_by_status actual_orders is_pending
  cancel_entry-hands_over now id e h at = ground arith

  -- The mark of the loop in `handle_cancellation_internal`.
  abbrev pub stop_waiting : Now → ExitEntry D → ExitEntry D
  stop_waiting now e = if is_pending e then mark_cancelled now primary_cancelled e else e

  pub lookup-cancel_each :
      (now : Now) (k : String) (ids : List String) (m : Map String (ExitEntry D))
      → lookup k (cancel_each now ids m).1
        ≡ (if member k ids then Option.map (stop_waiting now) (lookup k m) else lookup k m)
  unfolding cancel_each is_pending set_status
  lookup-cancel_each now k [] m = refl
  lookup-cancel_each now k (id ∷ ids) m =
      let m' = modify id (mark_cancelled now primary_cancelled) m in
      ground (
        arith,
        lookup-cancel_each now k ids m,
        lookup-cancel_each now k ids m',
        lookup-modify id k (mark_cancelled now primary_cancelled) m,
        string_eq.beq_iff id k,
      )

  -- When an entry order is cancelled while the maps are consistent, each of its exit entries that
  -- waits for fills is marked cancelled, and its other entries stay as they are.
  pub handle_cancellation-stops_waiting :
      (now : Now) (primary k : String) (e : ExitEntry D) (h : Handler D)
      → IsConsistent h
      → lookup k h.pending_by_placeholder ≡ some e
      → e.primary_order_id ≡ primary
      → lookup k (handle_cancellation now primary h).1.pending_by_placeholder
        ≡ some (stop_waiting now e)
  unfolding handle_cancellation
  handle_cancellation-stops_waiting now primary k e h c at own =
      let ids = placeholders primary h.pending_by_primary in
      elim (Bool-cases (is_empty ids)) [
        | inl n ↦ ground (arith, c.indexed k e at)
        | inr n ↦
            ground (arith, c.indexed k e at, lookup-cancel_each now k ids h.pending_by_placeholder)
      ]

  -- Cancelling an entry order keeps consistent maps consistent.
  pub handle_cancellation-IsConsistent :
      (now : Now) (primary : String) (h : Handler D)
      → IsConsistent h
      → IsConsistent (handle_cancellation now primary h).1
  unfolding handle_cancellation is_pending set_status
  handle_cancellation-IsConsistent now primary h c =
      let ids = placeholders primary h.pending_by_primary in
      elim (Bool-cases (is_empty ids)) [
        | inl n ↦
            rw (n, handle_cancellation)
              (record {
                keyed = c.keyed;
                indexed = λ k x at waiting. ground (
                  arith,
                  c.indexed k x at,
                  placeholders-remove primary x.primary_order_id h.pending_by_primary,
                  string_eq.beq_iff primary x.primary_order_id,
                );
              })
        | inr n ↦
            rw (n, handle_cancellation)
              (record {
                keyed = λ k x at. elim (Option-cases (lookup k h.pending_by_placeholder)) [
                  | inl s ↦ ground (arith, lookup-cancel_each now k ids h.pending_by_placeholder)
                  | inr (y, s) ↦
                      ground (
                        arith,
                        lookup-cancel_each now k ids h.pending_by_placeholder,
                        c.keyed k y s,
                      )
                ];
                indexed = λ k x at waiting.
                    elim (Option-cases (lookup k h.pending_by_placeholder)) [
                      | inl s ↦
                          ground (arith, lookup-cancel_each now k ids h.pending_by_placeholder)
                      | inr (y, s) ↦ ground (
                        arith,
                        lookup-cancel_each now k ids h.pending_by_placeholder,
                        c.indexed k y s,
                        placeholders-remove primary x.primary_order_id h.pending_by_primary,
                        string_eq.beq_iff primary x.primary_order_id,
                      )
                    ];
              })
      ]
