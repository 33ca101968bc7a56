-- ===== src/Models/Validation.antt =====
-- crates/core/src/models/order.rs: `OrderRequest::validate_semantics`.
pub mod Meaning
use trading_gateway.Base.{
  ◌+◌, ◌-◌, ◌*◌, ◌≤◌, ◌<◌, String, ◌⧺◌, Bool, true, false, ◌&&◌, ◌||◌, not, Option, none, some, [],
  ◌∷◌, ◌++◌, ◌==◌, option_eq, string_eq, nat_eq, if◌then◌else◌, ◌≡◌, ◌↔◌, ◌⊎◌,
}
use trading_gateway.Base.Decimal.{Decimal, zero_d, le_dec}
use trading_gateway.Models.Error.{GatewayResult, ok, err, invalid_request, invalid_value}
use trading_gateway.Models.{
  OrderType, market, limit, stop, stop_limit, trailing_stop, TrailingType, absolute, percent,
}
use trading_gateway.Models.Order.{OrderRequest}
use trading_gateway.Exit.Types.{stop_loss, take_profit, leg_eq}

abbrev pub and_then : {A B : Type 0} → GatewayResult A → (A → GatewayResult B) → GatewayResult B
and_then (ok a) f = f a
and_then (err e) f = err e

unfoldable pub missing_field : {A : Type 0} → String → String → GatewayResult A
missing_field order_type field =
    err (invalid_request (order_type ⧺ (" orders require " ⧺ field)) (some field))

abbrev pub done : GatewayResult (Unit {0})
done = ok tt

abbrev pub is_ok : {A : Type 0} → GatewayResult A → Bool
is_ok (ok a) = true
is_ok (err e) = false

module _ {D : Type 0} ⦃dec : Decimal D⦄ where
  unfoldable pub reject_unexpected : String → String → Option D → GatewayResult (Unit {0})
  reject_unexpected order_type field none = done
  reject_unexpected order_type field (some v) =
      err (
        invalid_value field (order_type ⧺ (" orders should not have " ⧺ field)) (some (dec.show v)))

  abbrev pub must_be_positive : String → D → GatewayResult D
  must_be_positive field v =
      if le_dec v zero_d
      then err (invalid_value field "must be positive" (some (dec.show v)))
      else ok v

  unfoldable pub require_positive : String → String → Option D → GatewayResult D
  unfolding missing_field
  require_positive order_type field none = missing_field order_type field
  require_positive order_type field (some v) = must_be_positive field v

  -- A value that may be absent, and else has to be positive.
  abbrev pub positive_if_given : String → Option D → GatewayResult (Unit {0})
  positive_if_given field none = done
  positive_if_given field (some v) = and_then (must_be_positive field v) (λ w. done)

  abbrev pub check_display : D → Option D → GatewayResult (Unit {0})
  check_display quantity none = done
  check_display quantity (some v) = and_then (must_be_positive "display_quantity" v) (λ w.
      if le_dec quantity v
      then err (invalid_value "display_quantity" "must be less than quantity" (some (dec.show v)))
      else done)

  abbrev pub check_trailing_type : D → Option TrailingType → GatewayResult (Unit {0})
  check_trailing_type distance none = missing_field "TrailingStop" "trailing_type"
  check_trailing_type distance (some absolute) = done
  check_trailing_type distance (some percent) =
      if le_dec dec.hundred_dec distance
      then err (
          invalid_value "trailing_distance" "percent trailing distance must be less than 100"
            (some (dec.show distance)))
      else done

  -- The match on the order type.
  unfoldable pub validate_type : OrderType → OrderRequest D → GatewayResult (Unit {0})
  unfolding require_positive reject_unexpected missing_field
  validate_type market o = and_then (reject_unexpected "Market" "limit_price" o.limit_price) (λ a.
      and_then (reject_unexpected "Market" "stop_price" o.stop_price)
        (λ b. reject_unexpected "Market" "trailing_distance" o.trailing_distance))
  validate_type limit o = and_then (require_positive "Limit" "limit_price" o.limit_price) (λ a.
      and_then (reject_unexpected "Limit" "stop_price" o.stop_price)
        (λ b. reject_unexpected "Limit" "trailing_distance" o.trailing_distance))
  validate_type stop o = and_then (require_positive "Stop" "stop_price" o.stop_price) (λ a.
      and_then (reject_unexpected "Stop" "limit_price" o.limit_price)
        (λ b. reject_unexpected "Stop" "trailing_distance" o.trailing_distance))
  validate_type stop_limit o =
      and_then (require_positive "StopLimit" "stop_price" o.stop_price) (λ a.
        and_then (require_positive "StopLimit" "limit_price" o.limit_price)
          (λ b. reject_unexpected "StopLimit" "trailing_distance" o.trailing_distance))
  validate_type trailing_stop o =
      and_then (require_positive "TrailingStop" "trailing_distance" o.trailing_distance)
        (λ distance. and_then (check_trailing_type distance o.trailing_type) (λ a.
          and_then (reject_unexpected "TrailingStop" "limit_price" o.limit_price)
            (λ b. reject_unexpected "TrailingStop" "stop_price" o.stop_price)))

  unfoldable pub validate_semantics : OrderRequest D → GatewayResult (Unit {0})
  unfolding validate_type
  validate_semantics o = and_then (validate_type o.order_type o) (λ a.
      and_then (positive_if_given "stop_loss" o.stop_loss) (λ b.
        and_then (positive_if_given "take_profit" o.take_profit) (λ c.
          and_then (check_display o.quantity o.display_quantity)
            (λ d. positive_if_given "leverage" o.leverage))))
