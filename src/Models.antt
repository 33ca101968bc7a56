-- ===== src/Models.antt =====
-- crates/core/src/models: the enumerations of mod.rs that the modelled code reads. Orders, errors
-- and the adapter trait are in the children.
pub mod Text
pub mod Error
pub mod Order
pub mod Position
pub mod Adapter
pub mod Validation
use trading_gateway.Base.{String, Bool, true, false, Eq, ◌==◌, ◌≡◌, ◌↔◌, arith, if◌then◌else◌}

pub data Side : Type 0 where
  buy sell : Side

pub data PositionSide : Type 0 where
  long short : PositionSide

pub data OrderType : Type 0 where
  market limit stop stop_limit trailing_stop : OrderType

pub data OrderStatus : Type 0 where
  pending pending_cancel open_status partially_filled filled cancelled rejected expired :
      OrderStatus

-- `OrderStatus::is_terminal`
unfoldable pub is_terminal : OrderStatus → Bool
is_terminal filled = true
is_terminal cancelled = true
is_terminal rejected = true
is_terminal expired = true
is_terminal _ = false

pub data TrailingType : Type 0 where
  absolute percent : TrailingType

pub data MarginMode : Type 0 where
  cross isolated : MarginMode

pub data TimeInForce : Type 0 where
  gtc day ioc fok : TimeInForce

pub data RejectReason : Type 0 where
  insufficient_margin insufficient_balance invalid_quantity invalid_price symbol_not_tradeable
        market_closed reduce_only_violated post_only_violated rate_limited unknown :
      RejectReason

-- crates/core/src/models/platform.rs
pub data TradingPlatform : Type 0 where
  alpaca_live alpaca_paper binance_spot_live binance_spot_testnet binance_futures_live
        binance_futures_testnet binance_margin_live binance_margin_testnet binance_coin_futures_live
        binance_coin_futures_testnet oanda_practice oanda_live saxo_sim saxo_live tektii mock :
      TradingPlatform

-- `TradingPlatform::header_value`, which `to_string` prints.
unfoldable pub header_value : TradingPlatform → String
header_value alpaca_live = "alpaca-live"
header_value alpaca_paper = "alpaca-paper"
header_value binance_spot_live = "binance-spot-live"
header_value binance_spot_testnet = "binance-spot-testnet"
header_value binance_futures_live = "binance-futures-live"
header_value binance_futures_testnet = "binance-futures-testnet"
header_value binance_margin_live = "binance-margin-live"
header_value binance_margin_testnet = "binance-margin-testnet"
header_value binance_coin_futures_live = "binance-coin-futures-live"
header_value binance_coin_futures_testnet = "binance-coin-futures-testnet"
header_value oanda_practice = "oanda-practice"
header_value oanda_live = "oanda-live"
header_value saxo_sim = "saxo-sim"
header_value saxo_live = "saxo-live"
header_value tektii = "tektii"
header_value mock = "mock"
