-- ===== src/Exit/Placement/Enough.antt =====
-- The attempts of `place_order_with_retry` (crates/core/src/exit_management/fill_handler.rs) come to an
-- end by themselves.
use trading_gateway.Base.{
  ℕ, zero, suc, ◌+◌, ◌≤◌, ◌<◌, ◌≡◌, refl, none, List, length, string_eq, nat_eq, inl, inr, arith,
  Option-cases, get_elem?, min,
}
use trading_gateway.Base.Decimal.{Decimal}
use trading_gateway.Models.Error.{Result-cases, GatewayError}
use trading_gateway.Models.Order.{OrderRequest}
use trading_gateway.Exit.Types.{leg_eq}
use trading_gateway.Exit.Placement.{
  Placement, Market, or_default, u32_max, place_attempts, place_order_with_retry,
  classify_and_handle_placement_error,
}

module _ {D W : Type 0} ⦃dec : Decimal D⦄ (market : Market D W) where
  -- After the last delay every error is final.
  last_is_final :
      (retry_delays : List ℕ) (e : GatewayError) (order : OrderRequest D) (attempt retry_count : ℕ)
      → length retry_delays ≤ attempt
      → ¬ (classify_and_handle_placement_error retry_delays e order attempt retry_count ≡ none)
  unfolding classify_and_handle_placement_error
  last_is_final retry_delays e order attempt retry_count last_ again =
      absurd (ground (arith, last_, again))

  -- The attempts after the one that failed at a state.
  abbrev later : List ℕ → OrderRequest D → (left attempt : ℕ) → W → Placement D × W
  later retry_delays order left attempt w =
      place_attempts market retry_delays order left (attempt + 1) (min (attempt + 1) u32_max)
        (market.sleep (or_default 0 (get_elem? retry_delays attempt)) w)

  same_attempt :
      (retry_delays : List ℕ) (order : OrderRequest D) (more left attempt retry_count : ℕ) (w : W)
      → ((e : GatewayError)
          → classify_and_handle_placement_error retry_delays e order attempt retry_count ≡ none
          → later retry_delays order more attempt (market.adapter.submit_order order w).1
            ≡ later retry_delays order left attempt (market.adapter.submit_order order w).1)
      → place_attempts market retry_delays order (suc more) attempt retry_count w
        ≡ place_attempts market retry_delays order (suc left) attempt retry_count w
  unfolding place_attempts
  same_attempt retry_delays order more left attempt retry_count w same =
      elim (Result-cases (market.adapter.submit_order order w).0) [
        | inl (handle, s) ↦ rw (place_attempts, s) refl
        | inr (e, s) ↦
            elim (Option-cases
              (classify_and_handle_placement_error retry_delays e order attempt retry_count)) [
                | inl again ↦ rw (place_attempts, s, again) (same e again)
                | inr (failure, s') ↦ rw (place_attempts, s, s') refl
              ]
      ]

  more_attempts :
      (retry_delays : List ℕ) (order : OrderRequest D) (left more attempt retry_count : ℕ) (w : W)
      → length retry_delays ≤ attempt + left
      → left ≤ more
      → place_attempts market retry_delays order (suc more) attempt retry_count w
        ≡ place_attempts market retry_delays order (suc left) attempt retry_count w
  more_attempts retry_delays order zero more attempt retry_count w enough le =
      same_attempt retry_delays order more zero attempt retry_count w (λ e again.
        absurd
          (last_is_final retry_delays e order attempt retry_count (omega (arith, enough)) again))
  more_attempts retry_delays order (suc left) zero attempt retry_count w enough le =
      absurd (omega (arith, le))
  more_attempts retry_delays order (suc left) (suc more) attempt retry_count w enough le =
      same_attempt retry_delays order (suc more) (suc left) attempt retry_count w (λ e again.
        more_attempts retry_delays order left more (attempt + 1) (min (attempt + 1) u32_max)
          (market.sleep (or_default 0 (get_elem? retry_delays attempt))
            (market.adapter.submit_order order w).1)
          (omega (arith, enough)) (omega (arith, le)))

  -- Placing an exit order ends by itself: with any larger number of attempts than the delays allow,
  -- the loop places the same order or reports the same error, after the same calls of the broker.
  pub place_order_with_retry-ends :
      (retry_delays : List ℕ) (order : OrderRequest D) (attempts : ℕ) (w : W)
      → length retry_delays < attempts
      → place_attempts market retry_delays order attempts 0 0 w
        ≡ place_order_with_retry market retry_delays order w
  unfolding place_order_with_retry
  place_order_with_retry-ends retry_delays order zero w lt = absurd (omega (arith, lt))
  place_order_with_retry-ends retry_delays order (suc more) w lt =
      let one_more : length retry_delays + 1 ≡ suc (length retry_delays) = omega arith in
      rw (one_more) (
        more_attempts retry_delays order (length retry_delays) more 0 0 w (omega arith)
          (omega (arith, lt)))
