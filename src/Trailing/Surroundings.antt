-- ===== src/Trailing/Surroundings.antt =====
-- What a trailing stop handler calls: crates/core/src/trailing_stop/executor.rs (the stop orders at
-- the broker) and price_source.rs (the prices). Their implementations are other tasks and brokers;
-- here they are any functions on a state of the world, which the calls read and change.
use trading_gateway.Base.{ℕ, String, Bool, Option, option_eq, string_eq, nat_eq}
use trading_gateway.Models.Error.{GatewayResult}
use trading_gateway.Models.{Side}

pub record StopOrderRequest (D : Type 0) : Type 0 where
  pub symbol : String
  pub side : Side
  pub quantity : D
  pub stop_price : D
  pub limit_price : D

pub record ModifyStopRequest (D : Type 0) : Type 0 where
  pub order_id : String
  pub symbol : String
  pub side : Side
  pub quantity : D
  pub new_stop_price : D
  pub new_limit_price : D

pub record PlacedStopOrder (D : Type 0) : Type 0 where
  pub order_id : String
  pub stop_price : D
  pub placed_at : ℕ

pub record StopOrderStatus (D : Type 0) : Type 0 where
  pub order_id : String
  pub stop_price : D
  pub is_active : Bool

pub record StopOrderExecutor (D W : Type 0) : Type 0 where
  pub place_stop_order : StopOrderRequest D → W → GatewayResult (PlacedStopOrder D) × W
  pub modify_stop_order : ModifyStopRequest D → W → GatewayResult (PlacedStopOrder D) × W
  pub cancel_stop_order : String → String → W → GatewayResult (Unit {0}) × W
  pub get_stop_order_status : String → String → W → GatewayResult (StopOrderStatus D) × W

-- `PriceSource` and `QuoteSubscriber`. The receiver of a subscription is read once under a timeout,
-- by `first_update`; later updates arrive as calls of `on_price_update`.
pub record PriceSource (D W : Type 0) : Type 0 where
  pub ensure_subscribed : String → W → GatewayResult (Unit {0}) × W
  pub subscribe : String → W → GatewayResult (Unit {0}) × W
  pub unsubscribe : String → W → GatewayResult (Unit {0}) × W
  pub current_price : String → W → GatewayResult D × W
  pub first_update : ℕ → String → W → Option D × W
