-- ===== src/Subscription.antt =====
-- crates/core/src/subscription/filter.rs: which events are forwarded to the strategies. A hash set is a
-- list of its members.
pub mod Platforms
pub mod Growth
pub mod Meaning
use text.Mathlib.Text.{starts_with}
use Prim.Native.String.{slice, len}
use trading_gateway.Base.{
  ℕ, ◌+◌, ◌-◌, ◌*◌, ◌≤◌, ◌<◌, String, ◌⧺◌, Bool, true, false, ◌&&◌, ◌||◌, not, Option, none, some,
  List, [], ◌∷◌, ◌++◌, any, ◌==◌, string_eq, nat_eq, if◌then◌else◌, ◌≡◌,
}
use trading_gateway.Base.Map.{Map, insert, lookup}
use trading_gateway.Models.{TradingPlatform}
use trading_gateway.Subscription.Platforms.{platform_eq}

-- crates/core/src/models/bar.rs
pub data Timeframe : Type 0 where
  one_minute two_minutes five_minutes ten_minutes fifteen_minutes thirty_minutes one_hour two_hours
        four_hours twelve_hours one_day one_week :
      Timeframe

-- `Timeframe::as_str`, which `to_string` prints
unfoldable pub as_str : Timeframe → String
as_str one_minute = "1m"
as_str two_minutes = "2m"
as_str five_minutes = "5m"
as_str ten_minutes = "10m"
as_str fifteen_minutes = "15m"
as_str thirty_minutes = "30m"
as_str one_hour = "1h"
as_str two_hours = "2h"
as_str four_hours = "4h"
as_str twelve_hours = "12h"
as_str one_day = "1d"
as_str one_week = "1w"

pub data EventKind : Type 0 where
  quote order_update position_update trade_update account_update : EventKind

-- The derived equality
unfoldable pub kind_beq : EventKind → EventKind → Bool
kind_beq quote quote = true
kind_beq order_update order_update = true
kind_beq position_update position_update = true
kind_beq trade_update trade_update = true
kind_beq account_update account_update = true
kind_beq _ _ = false

pub record SubscribedEvents : Type 0 where
  pub all : Bool
  pub all_candles : Bool
  pub candle_timeframes : List String
  pub events : List EventKind

abbrev pub no_events : SubscribedEvents
no_events = record { all = false; all_candles = false; candle_timeframes = []; events = [] }

-- The arms of the match in `add_event`
pub data Pattern : Type 0 where
  everything every_candle unknown : Pattern
  of_kind : EventKind → Pattern
  of_timeframe : String → Pattern

unfoldable pub pattern_of : String → Pattern
pattern_of event =
    if event == "*"
    then everything
    else if event == "candle_*" || (event == "bars" || event == "bar")
    then every_candle
    else if event == "quote" || event == "quotes"
    then of_kind quote
    else if event == "order_update" || event == "orders"
    then of_kind order_update
    else if event == "position_update" || event == "positions"
    then of_kind position_update
    else if event == "trade_update" || event == "trades"
    then of_kind trade_update
    else if event == "account_update"
    then of_kind account_update
    else if starts_with event "candle_"
    then of_timeframe event
    else if starts_with event "candles."
    then of_timeframe ("candle_" ⧺ slice event (len "candles.") (len event))
    else unknown

abbrev pub add_pattern : Pattern → SubscribedEvents → SubscribedEvents
add_pattern everything s = record s { all = true }
add_pattern every_candle s = record s { all_candles = true }
add_pattern unknown s = s
add_pattern (of_kind kind) s = record s { events = s.events ++ kind ∷ [] }
add_pattern (of_timeframe key) s = record s { candle_timeframes = s.candle_timeframes ++ key ∷ [] }

unfoldable pub add_event : String → SubscribedEvents → SubscribedEvents
add_event event s = add_pattern (pattern_of event) s

unfoldable pub add_events : List String → SubscribedEvents → SubscribedEvents
unfolding add_event
add_events [] s = s
add_events (event ∷ events) s = add_events events (add_event event s)

unfoldable pub includes_candle : Timeframe → SubscribedEvents → Bool
includes_candle timeframe s =
    s.all
    || (s.all_candles || any (λ key. key == ("candle_" ⧺ as_str timeframe)) s.candle_timeframes)

unfoldable pub includes_event : EventKind → SubscribedEvents → Bool
includes_event kind s = s.all || any (λ k. kind_beq k kind) s.events

-- crates/core/src/websocket/messages.rs
pub record InstrumentSubscription : Type 0 where
  pub platform : TradingPlatform
  pub instrument : String
  pub events : List String

-- `WsMessage` of crates/core/src/websocket/messages.rs, of its fields those that the filter reads
pub data WsMessage : Type 0 where
  pong event_ack ping account connection data_staleness rate_limit error backtest_complete close :
      WsMessage
  order position quote_data trade financing : String → WsMessage
  candle : String → Timeframe → WsMessage

pub record SubscriptionFilter : Type 0 where
  pub subscriptions : Map TradingPlatform (Map String SubscribedEvents)
  pub platform_wildcards : Map TradingPlatform SubscribedEvents
  pub account_subscriptions : Map TradingPlatform Bool

-- `or_default`
abbrev pub or_none : Option SubscribedEvents → SubscribedEvents
or_none none = no_events
or_none (some s) = s

abbrev pub or_empty : Option (Map String SubscribedEvents) → Map String SubscribedEvents
or_empty none = []
or_empty (some m) = m

abbrev pub or_false : Option Bool → Bool
or_false none = false
or_false (some b) = b

abbrev pub names_account : String → Bool
names_account event = event == "account_update" || event == "*"

-- One turn of the loop of `new`
unfoldable pub add_subscription : InstrumentSubscription → SubscriptionFilter → SubscriptionFilter
add_subscription sub f =
    let accounts =
      if any names_account sub.events
      then insert sub.platform true f.account_subscriptions
      else f.account_subscriptions in
    let platform_subs = or_empty (lookup sub.platform f.subscriptions) in
    if sub.instrument == "*"
    then record f {
      platform_wildcards =
          insert sub.platform
            (add_events sub.events (or_none (lookup sub.platform f.platform_wildcards)))
            f.platform_wildcards;
      account_subscriptions = accounts;
    }
    else record f {
      subscriptions =
          insert sub.platform
            (insert sub.instrument
              (add_events sub.events (or_none (lookup sub.instrument platform_subs))) platform_subs)
            f.subscriptions;
      account_subscriptions = accounts;
    }

unfoldable pub add_subscriptions :
    List InstrumentSubscription → SubscriptionFilter → SubscriptionFilter
unfolding add_subscription
add_subscriptions [] f = f
add_subscriptions (sub ∷ subs) f = add_subscriptions subs (add_subscription sub f)

abbrev pub empty_filter : SubscriptionFilter
empty_filter = record { subscriptions = []; platform_wildcards = []; account_subscriptions = [] }

unfoldable pub new : List InstrumentSubscription → SubscriptionFilter
unfolding add_subscriptions
new subscriptions = add_subscriptions subscriptions empty_filter

abbrev pub passes : (SubscribedEvents → Bool) → Option SubscribedEvents → Bool
passes test none = false
passes test (some s) = test s

-- `matches_candle` and `matches_simple`, by the test of the events
abbrev pub found : (SubscribedEvents → Bool) → TradingPlatform → String → SubscriptionFilter → Bool
found test platform symbol f =
    passes test (lookup symbol (or_empty (lookup platform f.subscriptions)))
    || passes test (lookup platform f.platform_wildcards)

unfoldable pub matches_candle : SubscriptionFilter → TradingPlatform → String → Timeframe → Bool
matches_candle f platform symbol timeframe = found (includes_candle timeframe) platform symbol f

unfoldable pub matches_simple : SubscriptionFilter → TradingPlatform → String → EventKind → Bool
matches_simple f platform symbol kind = found (includes_event kind) platform symbol f

unfoldable pub is_system_event : WsMessage → Bool
is_system_event connection = true
is_system_event data_staleness = true
is_system_event rate_limit = true
is_system_event error = true
is_system_event ping = true
is_system_event pong = true
is_system_event backtest_complete = true
is_system_event _ = false

abbrev pub is_empty : {K V : Type 0} → Map K V → Bool
is_empty [] = true
is_empty (p ∷ m) = false

-- The match of `matches`
unfoldable pub matches_message : WsMessage → TradingPlatform → SubscriptionFilter → Bool
unfolding matches_candle matches_simple
matches_message (candle symbol timeframe) platform f = matches_candle f platform symbol timeframe
matches_message (quote_data symbol) platform f = matches_simple f platform symbol quote
matches_message (order symbol) platform f = matches_simple f platform symbol order_update
matches_message (position symbol) platform f = matches_simple f platform symbol position_update
matches_message (trade symbol) platform f = matches_simple f platform symbol trade_update
matches_message (financing symbol) platform f = matches_simple f platform symbol trade_update
matches_message account platform f = or_false (lookup platform f.account_subscriptions)
matches_message pong platform f = false
matches_message event_ack platform f = false
matches_message close platform f = false
matches_message _ platform f = true

unfoldable pub matches : WsMessage → TradingPlatform → SubscriptionFilter → Bool
unfolding matches_message is_system_event
matches event platform f =
    if is_empty f.subscriptions && is_empty f.platform_wildcards
    then true
    else if is_system_event event
    then true
    else matches_message event platform f
