-- ===== src/Models/Order.antt =====
-- crates/core/src/models/order.rs: requests and orders, over the type of decimals. Times are
-- numbers.
use trading_gateway.Base.{ℕ, String, Bool, Option}
use trading_gateway.Models.{
  Side, OrderType, OrderStatus, TrailingType, MarginMode, TimeInForce, RejectReason,
}

pub record OrderRequest (D : Type 0) : Type 0 where
  pub symbol : String
  pub side : Side
  pub quantity : D
  pub order_type : OrderType
  pub limit_price : Option D
  pub stop_price : Option D
  pub trailing_distance : Option D
  pub trailing_type : Option TrailingType
  pub stop_loss : Option D
  pub take_profit : Option D
  pub position_id : Option String
  pub reduce_only : Bool
  pub post_only : Bool
  pub hidden : Bool
  pub display_quantity : Option D
  pub margin_mode : Option MarginMode
  pub leverage : Option D
  pub client_order_id : Option String
  pub oco_group_id : Option String
  pub time_in_force : TimeInForce

pub record OrderHandle : Type 0 where
  pub id : String
  pub client_order_id : Option String
  pub correlation_id : Option String
  pub status : OrderStatus

pub record Order (D : Type 0) : Type 0 where
  pub id : String
  pub client_order_id : Option String
  pub symbol : String
  pub side : Side
  pub order_type : OrderType
  pub quantity : D
  pub filled_quantity : D
  pub remaining_quantity : D
  pub limit_price : Option D
  pub stop_price : Option D
  pub stop_loss : Option D
  pub take_profit : Option D
  pub trailing_distance : Option D
  pub trailing_type : Option TrailingType
  pub average_fill_price : Option D
  pub status : OrderStatus
  pub reject_reason : Option RejectReason
  pub position_id : Option String
  pub parent_order_id : Option String
  pub reduce_only : Option Bool
  pub post_only : Option Bool
  pub hidden : Option Bool
  pub display_quantity : Option D
  pub oco_group_id : Option String
  pub correlation_id : Option String
  pub time_in_force : TimeInForce
  pub created_at : ℕ
  pub updated_at : ℕ

pub record ModifyOrderRequest (D : Type 0) : Type 0 where
  pub limit_price : Option D
  pub stop_price : Option D
  pub quantity : Option D
  pub stop_loss : Option D
  pub take_profit : Option D
  pub trailing_distance : Option D

pub record ModifyOrderResult (D : Type 0) : Type 0 where
  pub order : Order D
  pub previous_order_id : Option String
