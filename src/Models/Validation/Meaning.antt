-- ===== src/Models/Validation/Meaning.antt =====
-- Which requests `validate_semantics` of crates/core/src/models/order.rs accepts.
use trading_gateway.Base.{
  String, Bool, true, false, ◌&&◌, ◌||◌, Option, none, some, option_eq, string_eq, nat_eq, ◌≡◌,
  refl, arith,
}
use trading_gateway.Base.Decimal.{Decimal, zero_d, lt_dec}
use trading_gateway.Models.Error.{GatewayResult, ok, err}
use trading_gateway.Models.{
  OrderType, market, limit, stop, stop_limit, trailing_stop, TrailingType, absolute, percent,
}
use trading_gateway.Models.Order.{OrderRequest}
use trading_gateway.Exit.Types.{leg_eq}
use trading_gateway.Models.Validation.{
  and_then, is_ok, validate_type, validate_semantics, require_positive, reject_unexpected,
  missing_field, positive_if_given, check_display,
}

both-ok :
    {A : Type 0} (r : GatewayResult A) (s : GatewayResult (Unit {0}))
    → is_ok (and_then r (λ a. s)) ≡ (is_ok r && is_ok s)
both-ok (ok a) s = refl
both-ok (err e) s = refl

module _ {D : Type 0} ⦃dec : Decimal D⦄ where
  -- The specification: which fields a type of order needs, which it may not have, and what the
  -- values of the others satisfy.
  abbrev pub is_positive : Option D → Bool
  is_positive none = false
  is_positive (some v) = lt_dec zero_d v

  abbrev pub is_absent : Option D → Bool
  is_absent none = true
  is_absent (some v) = false

  abbrev pub in_percent : Option TrailingType → Option D → Bool
  in_percent none distance = false
  in_percent (some absolute) distance = true
  in_percent (some percent) none = false
  in_percent (some percent) (some distance) = lt_dec distance dec.hundred_dec

  abbrev pub fields_fit : OrderType → OrderRequest D → Bool
  fields_fit market o =
      is_absent o.limit_price && (is_absent o.stop_price && is_absent o.trailing_distance)
  fields_fit limit o =
      is_positive o.limit_price && (is_absent o.stop_price && is_absent o.trailing_distance)
  fields_fit stop o =
      is_absent o.limit_price && (is_positive o.stop_price && is_absent o.trailing_distance)
  fields_fit stop_limit o =
      is_positive o.limit_price && (is_positive o.stop_price && is_absent o.trailing_distance)
  fields_fit trailing_stop o =
      is_absent o.limit_price
      && (is_absent o.stop_price
          && (is_positive o.trailing_distance && in_percent o.trailing_type o.trailing_distance))

  abbrev pub display_fits : D → Option D → Bool
  display_fits quantity none = true
  display_fits quantity (some v) = lt_dec zero_d v && lt_dec v quantity

  abbrev pub well_formed : OrderRequest D → Bool
  well_formed o =
      fields_fit o.order_type o
      && ((is_absent o.stop_loss || is_positive o.stop_loss)
          && ((is_absent o.take_profit || is_positive o.take_profit)
              && (display_fits o.quantity o.display_quantity
                  && (is_absent o.leverage || is_positive o.leverage))))

  fields-ok : (t : OrderType) (o : OrderRequest D) → is_ok (validate_type t o) ≡ fields_fit t o
  unfolding validate_type require_positive reject_unexpected missing_field
  fields-ok market o = ground arith
  fields-ok limit o = ground arith
  fields-ok stop o = ground arith
  fields-ok stop_limit o = ground arith
  fields-ok trailing_stop o = ground arith

  given-ok :
      (field : String) (v : Option D)
      → is_ok (positive_if_given field v) ≡ (is_absent v || is_positive v)
  given-ok field none = refl
  given-ok field (some v) = ground arith

  display-ok :
      (quantity : D) (v : Option D) → is_ok (check_display quantity v) ≡ display_fits quantity v
  display-ok quantity none = refl
  display-ok quantity (some v) = ground arith

  -- Validation accepts exactly the well-formed requests: each type of order has the prices that it
  -- needs, positive, and none of the others, a trailing order a type and below one hundred percent;
  -- exit prices and leverage are positive where they are given, and the displayed quantity is
  -- positive and below the quantity.
  pub validate_semantics-ok_iff :
      (o : OrderRequest D) → is_ok (validate_semantics o) ≡ well_formed o
  unfolding validate_semantics
  validate_semantics-ok_iff o =
      let leverage = positive_if_given "leverage" o.leverage in
      let display = and_then (check_display o.quantity o.display_quantity) (λ d. leverage) in
      let profit = and_then (positive_if_given "take_profit" o.take_profit) (λ c. display) in
      let loss = and_then (positive_if_given "stop_loss" o.stop_loss) (λ b. profit) in
      ground (
        arith,
        both-ok (validate_type o.order_type o) loss,
        both-ok (positive_if_given "stop_loss" o.stop_loss) profit,
        both-ok (positive_if_given "take_profit" o.take_profit) display,
        both-ok (check_display o.quantity o.display_quantity) leverage,
        fields-ok o.order_type o,
        given-ok "stop_loss" o.stop_loss,
        given-ok "take_profit" o.take_profit,
        given-ok "leverage" o.leverage,
        display-ok o.quantity o.display_quantity,
      )
