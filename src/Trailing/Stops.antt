-- ===== src/Trailing/Stops.antt =====
-- The stop prices of crates/core/src/trailing_stop/types.rs, and the requests that register a
-- trailing stop (handler.rs).
use trading_gateway.Base.{Bool, true, false, ◌&&◌, option_eq, string_eq, nat_eq, ◌≡◌, arith}
use trading_gateway.Base.Decimal.{Decimal, zero_d, lt_dec}
use trading_gateway.Models.{Side, buy, sell, TrailingType, absolute, percent}
use trading_gateway.Trailing.Types.{calculate_stop_price, is_peak_improvement}

module _ {D : Type 0} ⦃dec : Decimal D⦄ where
  -- The distances that `register` takes.
  abbrev pub valid_distance : TrailingType → D → Bool
  valid_distance absolute distance = lt_dec zero_d distance
  valid_distance percent distance = lt_dec zero_d distance && lt_dec distance dec.hundred_dec

  -- Whether a stop protects less than another: it is lower for a sell, higher for a buy.
  abbrev pub looser : Side → D → D → Bool
  looser sell old_stop new_stop = lt_dec new_stop old_stop
  looser buy old_stop new_stop = lt_dec old_stop new_stop

  pub lt_asym : (a b : D) → dec.lt a b ≡ true → dec.lt b a ≡ false
  lt_asym a b p = ground (arith, dec.lt_trans a b a, dec.lt_irrefl a)

  pub sell_factor-nonneg :
      (d : D)
      → dec.lt d dec.hundred_dec ≡ true
      → dec.lt (dec.sub dec.one_dec (dec.div d dec.hundred_dec)) dec.zero_dec ≡ false
  sell_factor-nonneg d p =
      dec.sub_nonneg (dec.div d dec.hundred_dec) dec.one_dec (dec.div_hundred_le_one d p)

  pub buy_factor-nonneg :
      (d : D)
      → dec.lt dec.zero_dec d ≡ true
      → dec.lt (dec.add dec.one_dec (dec.div d dec.hundred_dec)) dec.zero_dec ≡ false
  buy_factor-nonneg d p =
      let d' = dec.div d dec.hundred_dec in
      let nonneg = dec.div_hundred_nonneg d (lt_asym zero_d d p) in
      let sum =
        dec.add_mono zero_d dec.one_dec zero_d d' (lt_asym zero_d dec.one_dec dec.one_pos) nonneg in
      dec.le_trans zero_d (dec.add zero_d zero_d) (dec.add dec.one_dec d') (dec.add_zero_ge zero_d)
        sum

  -- A better peak never loosens the stop price: for a distance that registration accepts, the stop
  -- price at an improved peak is not lower for a sell and not higher for a buy than at the old peak.
  pub calculate_stop_price-tightens :
      (trailing_type : TrailingType) (side : Side) (peak price distance : D)
      → valid_distance trailing_type distance ≡ true
      → is_peak_improvement peak price side ≡ true
      → looser side
          (calculate_stop_price peak distance trailing_type side)
          (calculate_stop_price price distance trailing_type side)
        ≡ false
  unfolding calculate_stop_price is_peak_improvement
  calculate_stop_price-tightens absolute sell peak price distance v i =
      dec.sub_mono peak price distance (lt_asym peak price i)
  calculate_stop_price-tightens percent sell peak price distance v i =
      dec.mul_mono peak price (dec.sub dec.one_dec (dec.div distance dec.hundred_dec))
        (sell_factor-nonneg distance (ground arith)) (lt_asym peak price i)
  calculate_stop_price-tightens absolute buy peak price distance v i =
      dec.add_mono price peak distance distance (lt_asym price peak i) (dec.lt_irrefl distance)
  calculate_stop_price-tightens percent buy peak price distance v i =
      dec.mul_mono price peak (dec.add dec.one_dec (dec.div distance dec.hundred_dec))
        (buy_factor-nonneg distance (ground arith)) (lt_asym price peak i)
