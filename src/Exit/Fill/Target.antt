-- ===== src/Exit/Fill/Target.antt =====
-- What a placed exit order covers (crates/core/src/exit_management/fill_handler.rs), and when no
-- order is placed.
use mathlib.Core.Option
use trading_gateway.Base.{
  String, true, ◌||◌, Option, none, some, List, [], ◌∷◌, ◌++◌, retain, string_eq, nat_eq, beq_refl,
  map, if◌then◌else◌, ◌≡◌, inl, inr, refl, arith, Option-cases,
}
use trading_gateway.Base.Map.{lookup, lookup-modify}
use trading_gateway.Base.Decimal.{Decimal, zero_d, add_dec, eq_dec, lt_dec}
use trading_gateway.Models.Order.{Order}
use trading_gateway.Exit.Types.{
  Now, ExitLegType, leg_eq, leg_beq_iff, ActualOrder, is_active, remaining_qty, ExitEntry,
  ExitEntryStatus, placed, actual_orders, is_pending, pending_status,
}
use trading_gateway.Exit.Handler.{Handler}
use trading_gateway.Exit.Placement.{Market}
use trading_gateway.Exit.Coverage.{calculate_active_coverage, sum_from, counts_for}
use trading_gateway.Exit.Breaker
use trading_gateway.Exit.Fill.{
  process_entry_fill, attempt_fill, entry_verdict, quantity_to_place, target_quantity,
  handle_successful_placement, update_entry_to_placed, update_entry_partial_fill,
  update_last_attempted_fill_qty, with_partial, with_placed, with_attempt, partial_status,
  triggered_orders, placed_order,
}

module _ {D : Type 0} ⦃dec : Decimal D⦄ where
  sum_from-snoc :
      (acc y : D) (xs : List D) → sum_from acc (xs ++ y ∷ []) ≡ add_dec (sum_from acc xs) y
  unfolding sum_from
  sum_from-snoc acc y [] = refl
  sum_from-snoc acc y (x ∷ xs) = sum_from-snoc (add_dec acc x) y xs

  counted-snoc :
      (leg : ExitLegType) (o : ActualOrder D) (os : List (ActualOrder D))
      → counts_for leg o ≡ true
      → map remaining_qty (retain (counts_for leg) (os ++ o ∷ []))
        ≡ (map remaining_qty (retain (counts_for leg) os) ++ remaining_qty o ∷ [])
  counted-snoc leg o [] c = ground arith
  counted-snoc leg o (x ∷ os) c = ground (arith, counted-snoc leg o os)

  -- One more active order of a leg adds what remains of it to the coverage.
  coverage-snoc :
      (leg : ExitLegType) (o : ActualOrder D) (os : List (ActualOrder D))
      → counts_for leg o ≡ true
      → calculate_active_coverage (os ++ o ∷ []) leg
        ≡ add_dec (calculate_active_coverage os leg) (remaining_qty o)
  unfolding calculate_active_coverage
  coverage-snoc leg o os c = ground (
    arith,
    counted-snoc leg o os,
    sum_from-snoc zero_d (remaining_qty o) (map remaining_qty (retain (counts_for leg) os)),
  )

  abbrev pub covered_by : Option (ExitEntry D) → D
  covered_by none = zero_d
  covered_by (some e) = calculate_active_coverage (actual_orders e.status) e.order_type

  abbrev pub partial_of : D → D → Option (D × D)
  partial_of filled total = if lt_dec filled total then some (filled, total) else none

  partial_orders :
      (o : ActualOrder D) (filled total : D) (s : ExitEntryStatus D)
      → pending_status s ≡ true
      → actual_orders (partial_status o filled total s) ≡ actual_orders s ++ o ∷ []
  unfolding actual_orders
  partial_orders o filled total s waiting = ground arith

  placed_orders :
      (o : ActualOrder D) (s : ExitEntryStatus D)
      → pending_status s ≡ true
      → actual_orders (placed (triggered_orders s ++ o ∷ [])) ≡ actual_orders s ++ o ∷ []
  unfolding actual_orders
  placed_orders o s waiting = ground arith

  placed-covers :
      (now : Now) (id : String) (e : ExitEntry D) (order : Order D) (partial : Option (D × D))
      (h : Handler D)
      → lookup id h.pending_by_placeholder ≡ some e
      → is_pending e ≡ true
      → covered_by (
          lookup id (handle_successful_placement now id e order partial h).1.pending_by_placeholder)
        ≡ add_dec (calculate_active_coverage (actual_orders e.status) e.order_type) order.quantity
  unfolding handle_successful_placement update_entry_to_placed update_entry_partial_fill is_pending
      actual_orders remaining_qty is_active
  placed-covers now id e order none h at waiting = ground (
    arith,
    placed_orders (placed_order now e order) e.status,
    coverage-snoc e.order_type (placed_order now e order) (actual_orders e.status),
    leg_beq_iff e.order_type e.order_type,
    lookup-modify id id (with_placed now (placed_order now e order)) h.pending_by_placeholder,
    beq_refl id,
  )
  placed-covers now id e order (some f) h at waiting = ground (
    arith,
    partial_orders (placed_order now e order) f.0 f.1 e.status,
    coverage-snoc e.order_type (placed_order now e order) (actual_orders e.status),
    leg_beq_iff e.order_type e.order_type,
    lookup-modify id id (with_partial now (placed_order now e order) f.0 f.1)
        h.pending_by_placeholder,
    beq_refl id,
  )

  -- When an entry waits for fills, and the broker takes the quantity that was computed for one, the
  -- active orders of the entry's leg cover the target exactly: the filled quantity of a partial fill, and otherwise the
  -- position's quantity, or the total if that is not known.
  pub placement_covers_target :
      (now : Now) (id : String) (e : ExitEntry D) (order : Order D) (h : Handler D)
      (filled total : D) (position_qty : Option D)
      → lookup id h.pending_by_placeholder ≡ some e
      → is_pending e ≡ true
      → order.quantity ≡ quantity_to_place e filled total position_qty
      → eq_dec
          (covered_by (
            lookup id
              (handle_successful_placement now id e order
                (partial_of filled total)
                h).1.pending_by_placeholder))
          (target_quantity filled total position_qty)
        ≡ true
  unfolding quantity_to_place
  placement_covers_target now id e order h filled total position_qty at waiting asked =
      let covered = calculate_active_coverage (actual_orders e.status) e.order_type in
      let target = target_quantity filled total position_qty in
      ground (
        arith,
        placed-covers now id e order (partial_of filled total) h,
        dec.add_sub_le covered target,
        dec.add_sub_ge covered target,
      )

  module _ {W : Type 0} (market : Market D W) where
    -- While the breaker is open, or if less than the minimum is left to cover, a fill for an existing
    -- entry makes no call to the broker, and the entry keeps its status.
    pub process_entry_fill-defers :
        (describe : ExitEntryStatus D → String) (id : String) (filled total : D)
        (position_qty : Option D) (position_id : Option String) (e : ExitEntry D) (h : Handler D)
        (w : W)
        → lookup id h.pending_by_placeholder ≡ some e
        → (Breaker.is_open h.circuit_breaker
            || lt_dec (quantity_to_place e filled total position_qty) h.config.min_exit_order_qty)
          ≡ true
        → let s =
            (process_entry_fill market describe id filled total position_qty position_id h w).1 in
          (s.1 ≡ w)
          × (Option.map (λ x. x.status) (lookup id s.0.pending_by_placeholder) ≡ some e.status)
    unfolding process_entry_fill attempt_fill update_last_attempted_fill_qty
    process_entry_fill-defers describe id filled total pq pid e h w at held =
        elim (Option-cases (entry_verdict describe id filled e)) [
          | inl n ↦ ground (
            arith,
            beq_refl id,
            lookup-modify id id (with_attempt (market.clock w) filled) h.pending_by_placeholder,
          )
          | inr (v, s) ↦ ground arith
        ]
