-- ===== src/Exit/Placement/Attempts.antt =====
-- How often an exit order is submitted (`place_order_with_retry` of
-- crates/core/src/exit_management/fill_handler.rs).
use trading_gateway.Base.{
  ℕ, zero, suc, ◌+◌, ◌≤◌, List, length, string_eq, nat_eq, inl, inr, arith, Option-cases, get_elem?,
  min,
}
use trading_gateway.Base.Decimal.{Decimal}
use trading_gateway.Models.Error.{Result-cases}
use trading_gateway.Models.Order.{OrderRequest}
use trading_gateway.Exit.Types.{leg_eq}
use trading_gateway.Exit.Placement.{
  Market, or_default, u32_max, place_attempts, place_order_with_retry,
  classify_and_handle_placement_error,
}

-- A market that counts the submissions next to the state of the broker.
abbrev count_left : {A W : Type 0} → ℕ → A × W → A × (ℕ × W)
count_left n (a, w) = (a, (n, w))

abbrev pub counting : {D W : Type 0} → Market D W → Market D (ℕ × W)
counting market = record {
  adapter = record {
    submit_order = λ order s. count_left (s.0 + 1) (market.adapter.submit_order order s.1);
    get_order = λ id s. count_left s.0 (market.adapter.get_order id s.1);
    modify_order = λ id request s. count_left s.0 (market.adapter.modify_order id request s.1);
    cancel_order = λ id s. count_left s.0 (market.adapter.cancel_order id s.1);
  };
  clock = λ s. market.clock s.1;
  sleep = λ delay s. (s.0, market.sleep delay s.1);
}

module _ {D W : Type 0} ⦃dec : Decimal D⦄ (market : Market D W) where
  submissions_bounded :
      (retry_delays : List ℕ) (order : OrderRequest D) (left attempt retry_count n : ℕ) (w : W)
      → (place_attempts (counting market) retry_delays order left attempt retry_count (n, w)).1.0
        ≤ n + left
  unfolding place_attempts
  submissions_bounded retry_delays order zero attempt retry_count n w = omega arith
  submissions_bounded retry_delays order (suc left) attempt retry_count n w =
      let step = market.adapter.submit_order order w in
      elim (Result-cases step.0) [
        | inl (handle, s) ↦ ground arith
        | inr (e, s) ↦
            elim (Option-cases
              (classify_and_handle_placement_error retry_delays e order attempt retry_count)) [
                | inl again ↦ ground (
                  arith,
                  submissions_bounded retry_delays order left (attempt + 1)
                      (min (attempt + 1) u32_max) (n + 1)
                      (market.sleep (or_default 0 (get_elem? retry_delays attempt)) step.1),
                )
                | inr (failure, s') ↦ ground arith
              ]
      ]

  -- Placing an exit order submits it at most once more than there are retry delays, whatever the
  -- broker answers.
  pub place_order_with_retry-bounded :
      (retry_delays : List ℕ) (order : OrderRequest D) (n : ℕ) (w : W)
      → (place_order_with_retry (counting market) retry_delays order (n, w)).1.0
        ≤ n + (length retry_delays + 1)
  unfolding place_order_with_retry
  place_order_with_retry-bounded retry_delays order n w =
      submissions_bounded retry_delays order (length retry_delays + 1) 0 0 n w
