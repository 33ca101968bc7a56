-- ===== src/Models/Position.antt =====
-- crates/core/src/models/position.rs: positions, over the type of decimals. Times are numbers.
use trading_gateway.Base.{ℕ, String, Option}
use trading_gateway.Models.{PositionSide, MarginMode}

pub record Position (D : Type 0) : Type 0 where
  pub id : String
  pub symbol : String
  pub side : PositionSide
  pub quantity : D
  pub average_entry_price : D
  pub current_price : D
  pub unrealized_pnl : D
  pub realized_pnl : D
  pub margin_mode : Option MarginMode
  pub leverage : Option D
  pub liquidation_price : Option D
  pub opened_at : ℕ
  pub updated_at : ℕ
