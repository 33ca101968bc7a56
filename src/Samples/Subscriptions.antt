-- ===== src/Samples/Subscriptions.antt =====
-- Subscriptions to one symbol and to all of a platform.
use trading_gateway.Subscription.Platforms.{platform_beq}
use trading_gateway.Models.{header_value}
use trading_gateway.Subscription.{pattern_of, as_str, kind_beq}
use trading_gateway.Base.{true, false, List, [], ◌∷◌, ◌≡◌, if◌then◌else◌, string_eq, nat_eq}
use trading_gateway.Models.{oanda_live, alpaca_live}
use trading_gateway.Subscription.{
  InstrumentSubscription, matches, new, candle, quote_data, five_minutes, one_hour,
}
use trading_gateway.Subscription.Meaning.{matches_iff, wanted, is_nil}

abbrev subscriptions : List InstrumentSubscription
subscriptions =
    record { platform = oanda_live; instrument = "EUR_USD"; events = "candles.5m" ∷ "orders" ∷ [] }
    ∷ record { platform = alpaca_live; instrument = "*"; events = "quote" ∷ "account_update" ∷ [] }
    ∷ []

matches_iff_example : matches (candle "EUR_USD" five_minutes) oanda_live (new subscriptions) ≡ (
    if is_nil subscriptions
    then true
    else wanted (candle "EUR_USD" five_minutes) oanda_live subscriptions)
matches_iff_example = matches_iff (candle "EUR_USD" five_minutes) oanda_live subscriptions

other_timeframe : matches (candle "EUR_USD" one_hour) oanda_live (new subscriptions) ≡ false
unfolding platform_beq header_value pattern_of as_str
other_timeframe = matches_iff (candle "EUR_USD" one_hour) oanda_live subscriptions

any_symbol : matches (quote_data "AAPL") alpaca_live (new subscriptions) ≡ true
unfolding platform_beq header_value pattern_of kind_beq
any_symbol = matches_iff (quote_data "AAPL") alpaca_live subscriptions
