-- ===== src/Models/Adapter.antt =====
-- crates/core/src/adapter/mod.rs: the calls of `TradingAdapter` that the exit handler makes. The
-- trait's implementations talk to brokers; here an adapter is any functions on a state of the
-- broker, which the calls read and change.
use trading_gateway.Base.{String}
use trading_gateway.Models.Error.{GatewayResult}
use trading_gateway.Models.Order.{
  OrderRequest, OrderHandle, Order, ModifyOrderRequest, ModifyOrderResult,
}

pub record Adapter (D W : Type 0) : Type 0 where
  pub submit_order : OrderRequest D → W → GatewayResult OrderHandle × W
  pub get_order : String → W → GatewayResult (Order D) × W
  pub modify_order : String → ModifyOrderRequest D → W → GatewayResult (ModifyOrderResult D) × W
  -- What a successful cancellation returns is not read.
  pub cancel_order : String → W → GatewayResult (Unit {0}) × W
