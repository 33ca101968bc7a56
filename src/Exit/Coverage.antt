-- ===== src/Exit/Coverage.antt =====
-- crates/core/src/exit_management/coverage.rs: how much of a position the active exit orders cover.
use trading_gateway.Base.{
  Bool, true, false, ◌&&◌, not, List, [], ◌∷◌, retain, map, ◌==◌, ◌≡◌, arith, ◌↔◌, ◌⊎◌,
}
use trading_gateway.Base.Decimal.{Decimal, zero_d, add_dec, sub_dec, max_dec, eq_dec, lt_dec}
use trading_gateway.Exit.Types.{
  ActualOrder, ExitLegType, stop_loss, take_profit, leg_eq, is_active, remaining_qty,
}

pub record ExitCoverage (D : Type 0) : Type 0 where
  pub filled_qty : D
  pub sl_covered : D
  pub tp_covered : D

module _ {D : Type 0} ⦃dec : Decimal D⦄ where
  -- `ExitCoverage::new`
  unfoldable pub new : D → ExitCoverage D
  new filled_qty = record { filled_qty = filled_qty; sl_covered = zero_d; tp_covered = zero_d }

  unfoldable pub qty_needing_sl : ExitCoverage D → D
  qty_needing_sl c = max_dec (sub_dec c.filled_qty c.sl_covered) zero_d

  unfoldable pub qty_needing_tp : ExitCoverage D → D
  qty_needing_tp c = max_dec (sub_dec c.filled_qty c.tp_covered) zero_d

  unfoldable pub qty_needing : ExitLegType → ExitCoverage D → D
  unfolding qty_needing_sl qty_needing_tp
  qty_needing stop_loss c = qty_needing_sl c
  qty_needing take_profit c = qty_needing_tp c

  unfoldable pub is_fully_covered : ExitCoverage D → Bool
  unfolding qty_needing_sl qty_needing_tp
  is_fully_covered c = eq_dec (qty_needing_sl c) zero_d && eq_dec (qty_needing_tp c) zero_d

  unfoldable pub has_gap : ExitCoverage D → Bool
  unfolding is_fully_covered
  has_gap c = not (is_fully_covered c)

  -- `Iterator::sum`, from zero.
  unfoldable pub sum_from : D → List D → D
  sum_from acc [] = acc
  sum_from acc (d ∷ ds) = sum_from (add_dec acc d) ds

  abbrev pub counts_for : ExitLegType → ActualOrder D → Bool
  counts_for leg_type o = is_active o && o.leg_type == leg_type

  unfoldable pub calculate_active_coverage : List (ActualOrder D) → ExitLegType → D
  unfolding sum_from
  calculate_active_coverage existing_orders leg_type =
      sum_from zero_d (map remaining_qty (retain (counts_for leg_type) existing_orders))

  unfoldable pub build_coverage : D → List (ActualOrder D) → ExitCoverage D
  build_coverage filled_qty existing_orders = record {
    filled_qty = filled_qty;
    sl_covered = calculate_active_coverage existing_orders stop_loss;
    tp_covered = calculate_active_coverage existing_orders take_profit;
  }

  needs_nothing_iff :
      (filled covered : D)
      → (eq_dec (max_dec (sub_dec filled covered) zero_d) zero_d ≡ true)
        ↔ (lt_dec covered filled ≡ false)
  needs_nothing_iff filled covered =
      ground
        (arith, dec.sub_pos covered filled, dec.sub_nonpos covered filled, dec.lt_irrefl zero_d)

  -- The coverage has a gap exactly if the active stop-loss orders, or the active take-profit
  -- orders, cover less than the filled quantity.
  has_gap_iff :
      (filled_qty : D) (orders : List (ActualOrder D))
      → (has_gap (build_coverage filled_qty orders) ≡ true) ↔ (
          (lt_dec (calculate_active_coverage orders stop_loss) filled_qty ≡ true)
          ⊎ (lt_dec (calculate_active_coverage orders take_profit) filled_qty ≡ true))
  unfolding has_gap build_coverage
  has_gap_iff filled_qty orders = ground (
    arith,
    needs_nothing_iff filled_qty (calculate_active_coverage orders stop_loss),
    needs_nothing_iff filled_qty (calculate_active_coverage orders take_profit),
  )
