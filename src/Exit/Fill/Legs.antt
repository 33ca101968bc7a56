-- ===== src/Exit/Fill/Legs.antt =====
-- Fills of entry orders and of exit legs, and the maps of the handler
-- (crates/core/src/exit_management/fill_handler.rs).
use trading_gateway.Base.{
  String, Bool, ◌&&◌, ◌||◌, [], ◌∷◌, all, is_empty, string_eq, nat_eq, inl, inr, refl, arith,
  Bool-cases, Option-cases,
}
use trading_gateway.Base.Map.{lookup, remove, contains_key, lookup-remove}
use trading_gateway.Base.Decimal.{Decimal, zero_d, le_dec}
use trading_gateway.Models.Adapter.{Adapter}
use trading_gateway.Exit.Types.{leg_eq, ExitEntry, ExitEntryStatus, actual_orders}
use trading_gateway.Exit.Index.{placeholders, placeholders-remove_batch, member-retain}
use trading_gateway.Exit.Handler.{Handler, has_pending_for_primary}
use trading_gateway.Exit.Placement.{Market}
use trading_gateway.Exit.Invariant.{IsConsistent}
use trading_gateway.Exit.Fill.Consistency.{same_maps, process_entries-IsConsistent}
use trading_gateway.Exit.FillEvents.{
  FillEvent, buffer_unmatched_fill, handle_unmatched, handle_fill, handle_unregistered,
  handle_exit_leg_fill, resolve_pair, cancel_exit_leg_orders, cancel_active, remove_pending_entry,
  find_entry_by_actual_order,
}

module _ {D : Type 0} where
  remove_pending_entry-IsConsistent :
      (id primary : String) (h : Handler D)
      → IsConsistent h
      → IsConsistent (remove_pending_entry id primary h)
  unfolding remove_pending_entry
  remove_pending_entry-IsConsistent id primary h c = record {
    keyed = λ k e at. ground (arith, lookup-remove id k h.pending_by_placeholder, c.keyed k e);
    indexed = λ k e at waiting. ground (
      arith,
      lookup-remove id k h.pending_by_placeholder,
      c.indexed k e,
      placeholders-remove_batch primary e.primary_order_id (id ∷ []) h.pending_by_primary,
      member-retain k (id ∷ []) (placeholders e.primary_order_id h.pending_by_primary),
    );
  }

  module _ {W : Type 0} (adapter : Adapter D W) where
    cancel_exit_leg_orders-IsConsistent :
        (id primary : String) (h : Handler D) (w : W)
        → IsConsistent h
        → IsConsistent (cancel_exit_leg_orders adapter id primary h w).0
    unfolding cancel_exit_leg_orders
    cancel_exit_leg_orders-IsConsistent id primary h w c =
        elim (Option-cases (lookup id h.pending_by_placeholder)) [
          | inl n ↦ rw (n, cancel_exit_leg_orders) c
          | inr (e, s) ↦ elim (Bool-cases (cancel_active adapter (actual_orders e.status) w).0) [
            | inl all ↦
                rw (s, all, cancel_exit_leg_orders)
                  (remove_pending_entry-IsConsistent id primary h c)
            | inr some_left ↦ rw (s, some_left, cancel_exit_leg_orders) c
          ]
        ]

    resolve_pair-IsConsistent :
        (e : ExitEntry D) (h : Handler D) (w : W)
        → IsConsistent h
        → IsConsistent (resolve_pair adapter e h w).0
    unfolding resolve_pair
    resolve_pair-IsConsistent e h w c =
        let h1 = remove_pending_entry e.placeholder_id e.primary_order_id h in
        let c1 = remove_pending_entry-IsConsistent e.placeholder_id e.primary_order_id h c in
        elim (Option-cases e.sibling_id) [
          | inl n ↦ rw (n, resolve_pair) c1
          | inr (sibling, s) ↦
              rw (s, resolve_pair)
                (cancel_exit_leg_orders-IsConsistent sibling e.primary_order_id h1 w c1)
        ]

    handle_exit_leg_fill-IsConsistent :
        (id : String) (full : Bool) (h : Handler D) (w : W)
        → IsConsistent h
        → IsConsistent (handle_exit_leg_fill adapter id full h w).1.0
    unfolding handle_exit_leg_fill
    handle_exit_leg_fill-IsConsistent id full h w c =
        elim (Option-cases (find_entry_by_actual_order id h.pending_by_placeholder)) [
          | inl n ↦ rw (n, handle_exit_leg_fill) c
          | inr (e, s) ↦ elim (Bool-cases full) [
            | inl f ↦ rw (s, f, handle_exit_leg_fill) (resolve_pair-IsConsistent e h w c)
            | inr f ↦ rw (s, f, handle_exit_leg_fill) c
          ]
        ]

module _ {D W : Type 0} ⦃dec : Decimal D⦄ (market : Market D W)
    (describe : ExitEntryStatus D → String) where
  module _ (meanwhile : Handler D → Handler D)
      (others : (h : Handler D) → IsConsistent h → IsConsistent (meanwhile h)) where
    handle_unmatched-IsConsistent :
        (id : String) (fill : FillEvent D) (h : Handler D) (w : W)
        → IsConsistent h
        → IsConsistent (handle_unmatched market describe meanwhile id fill h w).1.0
    unfolding handle_unmatched buffer_unmatched_fill
    handle_unmatched-IsConsistent id fill h w c =
        let h1 = buffer_unmatched_fill (market.clock w) id fill (meanwhile h) in
        let h2 = record h1 { unmatched_fills = remove id h1.unmatched_fills } in
        let c1 = same_maps (meanwhile h) h1 refl refl (others h c) in
        let c2 = same_maps (meanwhile h) h2 refl refl (others h c) in
        elim (Bool-cases (has_pending_for_primary id h1 && contains_key id h1.unmatched_fills)) [
          | inl ready ↦
              rw (ready, handle_unmatched)
                (process_entries-IsConsistent market describe
                  (placeholders id h2.pending_by_primary) fill h2 w c2)
          | inr waits ↦ rw (waits, handle_unmatched) c1
        ]

    -- Handling a fill keeps consistent maps consistent on every branch, if what other tasks do
    -- meanwhile does.
    pub handle_fill-IsConsistent :
        (id : String) (fill : FillEvent D) (h : Handler D) (w : W)
        → IsConsistent h
        → IsConsistent (handle_fill market describe meanwhile id fill h w).1.0
    unfolding handle_fill handle_unregistered
    handle_fill-IsConsistent id fill h w c =
        let ids = placeholders id h.pending_by_primary in
        let full = le_dec fill.total_qty fill.filled_qty in
        let leg = handle_exit_leg_fill market.adapter id full h w in
        let c1 = handle_exit_leg_fill-IsConsistent market.adapter id full h w c in
        elim (Bool-cases (le_dec fill.filled_qty zero_d || le_dec fill.total_qty zero_d)) [
          | inl bad ↦ rw (bad, handle_fill) c
          | inr good ↦ elim (Bool-cases (is_empty ids)) [
            | inr some_ids ↦
                rw (good, some_ids, handle_fill)
                  (process_entries-IsConsistent market describe ids fill h w c)
            | inl none_left ↦ elim (Bool-cases leg.0) [
              | inl resolved ↦ rw (good, none_left, resolved, handle_fill, handle_unregistered) c1
              | inr other ↦
                  rw (good, none_left, other, handle_fill, handle_unregistered)
                    (handle_unmatched-IsConsistent id fill leg.1.0 leg.1.1 c1)
            ]
          ]
        ]
