-- ===== src/Subscription/Meaning.antt =====
-- Which events crates/core/src/subscription/filter.rs forwards.
use trading_gateway.Base.{
  Bool, true, false, refl, List, [], ◌∷◌, any, string_eq, nat_eq, if◌then◌else◌, ◌≡◌,
}
use trading_gateway.Models.{TradingPlatform}
use trading_gateway.Subscription.Platforms.{platform_eq}
use trading_gateway.Subscription.{
  quote, order_update, position_update, trade_update, includes_candle, includes_event,
  InstrumentSubscription, WsMessage, pong, event_ack, ping, account, connection, data_staleness,
  rate_limit, error, backtest_complete, close, order, position, quote_data, trade, financing,
  candle, add_subscriptions, empty_filter, new, matches_candle, matches_simple, is_system_event,
  matches_message, matches,
}
use trading_gateway.Subscription.Growth.{
  wants_candle, wants_event, asks, asks_account, candle-Grows, event-Grows, found-new, account-new,
  filters,
}

abbrev pub is_nil : List InstrumentSubscription → Bool
is_nil [] = true
is_nil (sub ∷ subs) = false

-- The specification: which messages are forwarded where there are subscriptions.
abbrev pub wanted : WsMessage → TradingPlatform → List InstrumentSubscription → Bool
wanted (candle symbol timeframe) platform subs =
    any (asks (wants_candle timeframe) platform symbol) subs
wanted (quote_data symbol) platform subs = any (asks (wants_event quote) platform symbol) subs
wanted (order symbol) platform subs = any (asks (wants_event order_update) platform symbol) subs
wanted (position symbol) platform subs =
    any (asks (wants_event position_update) platform symbol) subs
wanted (trade symbol) platform subs = any (asks (wants_event trade_update) platform symbol) subs
wanted (financing symbol) platform subs = any (asks (wants_event trade_update) platform symbol) subs
wanted account platform subs = any (asks_account platform) subs
wanted event_ack platform subs = false
wanted close platform subs = false
wanted _ platform subs = true

message-wanted :
    (event : WsMessage) (platform : TradingPlatform) (subs : List InstrumentSubscription)
    → (if is_system_event event then true else matches_message event platform (new subs))
      ≡ wanted event platform subs
unfolding matches_message matches_candle matches_simple is_system_event
message-wanted (candle symbol timeframe) platform subs =
    found-new (includes_candle timeframe) (wants_candle timeframe) (candle-Grows timeframe) subs
      platform symbol
message-wanted (quote_data symbol) platform subs =
    found-new (includes_event quote) (wants_event quote) (event-Grows quote) subs platform symbol
message-wanted (order symbol) platform subs =
    found-new (includes_event order_update) (wants_event order_update) (event-Grows order_update)
      subs platform symbol
message-wanted (position symbol) platform subs =
    found-new (includes_event position_update) (wants_event position_update)
      (event-Grows position_update) subs platform symbol
message-wanted (trade symbol) platform subs =
    found-new (includes_event trade_update) (wants_event trade_update) (event-Grows trade_update)
      subs platform symbol
message-wanted (financing symbol) platform subs =
    found-new (includes_event trade_update) (wants_event trade_update) (event-Grows trade_update)
      subs platform symbol
message-wanted account platform subs = account-new subs platform
message-wanted event_ack platform subs = refl
message-wanted close platform subs = refl
message-wanted pong platform subs = refl
message-wanted ping platform subs = refl
message-wanted connection platform subs = refl
message-wanted data_staleness platform subs = refl
message-wanted rate_limit platform subs = refl
message-wanted error platform subs = refl
message-wanted backtest_complete platform subs = refl

-- A filter without subscriptions forwards every message. Otherwise system messages are forwarded,
-- acknowledgments and closing never, and any other message exactly if some subscription of its
-- platform asks for its symbol, by name or by the wildcard, and for its kind of event; account
-- messages need no symbol.
pub matches_iff :
    (event : WsMessage) (platform : TradingPlatform) (subs : List InstrumentSubscription)
    → matches event platform (new subs) ≡ (if is_nil subs then true else wanted event platform subs)
unfolding matches new add_subscriptions
matches_iff event platform [] = refl
matches_iff event platform (sub ∷ subs) =
    rw (filters sub subs empty_filter) (message-wanted event platform (sub ∷ subs))
