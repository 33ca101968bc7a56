-- ===== src/Exit/Types.antt =====
-- crates/core/src/exit_management/types.rs. `D` is the type of decimals; times are numbers, read
-- from the monotonic clock (`instant`) and from the wall clock (`utc`) when the operation runs.
-- Version counters are unbounded: 2 ^ 64 changes of one entry are out of reach.
use trading_gateway.Base.{
  ℕ, ◌+◌, String, ◌⧺◌, Bool, true, false, Option, none, some, List, [], ◌≡◌, ◌↔◌, arith, Eq,
}
use trading_gateway.Base.Decimal.{Decimal, zero_d, max_dec, sub_dec}
use trading_gateway.Models.{Side, buy, sell, TradingPlatform}
use trading_gateway.Models.Order.{Order}

pub record Now : Type 0 where
  pub instant : ℕ
  pub utc : ℕ

pub data ExitLegType : Type 0 where
  stop_loss take_profit : ExitLegType

unfoldable pub leg_beq : ExitLegType → ExitLegType → Bool
leg_beq stop_loss stop_loss = true
leg_beq take_profit take_profit = true
leg_beq _ _ = false

pub leg_beq_iff : (a b : ExitLegType) → (leg_beq a b ≡ true) ↔ (a ≡ b)
unfolding leg_beq
leg_beq_iff a b = ground arith

instance abbrev pub leg_eq : Eq ExitLegType
leg_eq = record { beq = leg_beq; beq_iff = leg_beq_iff }

-- `ExitLegType::prefix`
unfoldable pub prefix : ExitLegType → String
prefix stop_loss = "exit:sl:"
prefix take_profit = "exit:tp:"

-- `ExitLegType::client_order_suffix`
unfoldable pub client_order_suffix : ExitLegType → String
client_order_suffix stop_loss = "sl"
client_order_suffix take_profit = "tp"

pub data ActualOrderStatus (D : Type 0) : Type 0 where
  open_order : ActualOrderStatus D
  partially_filled : (filled_qty : D) → (updated_at : ℕ) → ActualOrderStatus D
  filled : (filled_at : ℕ) → ActualOrderStatus D
  pending_cancel : (requested_at : ℕ) → ActualOrderStatus D
  order_cancelled : (cancelled_at : ℕ) → ActualOrderStatus D
  rejected : (rejected_at : ℕ) → (reason : String) → ActualOrderStatus D
  order_expired : (expired_at : ℕ) → ActualOrderStatus D
  unknown : ActualOrderStatus D

pub record ActualOrder (D : Type 0) : Type 0 where
  pub order_id : String
  pub quantity : D
  pub placed_at : ℕ
  pub status : ActualOrderStatus D
  pub leg_type : ExitLegType

abbrev active_status : {D : Type 0} → ActualOrderStatus D → Bool
active_status open_order = true
active_status (partially_filled q t) = true
active_status _ = false

-- `ActualOrder::is_active`
unfoldable pub is_active : {D : Type 0} → ActualOrder D → Bool
is_active o = active_status o.status

module _ {D : Type 0} ⦃dec : Decimal D⦄ where
  remaining_of : D → ActualOrderStatus D → D
  remaining_of quantity open_order = quantity
  remaining_of quantity (partially_filled filled_qty t) =
      max_dec (sub_dec quantity filled_qty) zero_d
  remaining_of quantity _ = zero_d

  -- `ActualOrder::remaining_qty`
  unfoldable pub remaining_qty : ActualOrder D → D
  unfolding remaining_of
  remaining_qty o = remaining_of o.quantity o.status

pub data CancellationReason : Type 0 where
  primary_cancelled primary_rejected sibling_filled user_requested position_closed system_cleanup
        oco_succeeded :
      CancellationReason

pub data ExitEntryStatus (D : Type 0) : Type 0 where
  pending : ExitEntryStatus D
  partially_triggered :
      (filled_qty total_qty : D) → (actual_orders : List (ActualOrder D)) → ExitEntryStatus D
  placed : (actual_orders : List (ActualOrder D)) → ExitEntryStatus D
  failed :
      (error : String)
      → (retry_count failed_at : ℕ) → (actual_orders : List (ActualOrder D)) → ExitEntryStatus D
  cancelled : (cancelled_at : ℕ) → (reason : CancellationReason) → ExitEntryStatus D
  expired : (expired_at : ℕ) → ExitEntryStatus D

-- `ExitEntryStatus::actual_orders`
unfoldable pub actual_orders : {D : Type 0} → ExitEntryStatus D → List (ActualOrder D)
actual_orders (partially_triggered f t os) = os
actual_orders (placed os) = os
actual_orders (failed e r t os) = os
actual_orders _ = []

-- `opposite_side`
unfoldable pub opposite_side : Side → Side
opposite_side buy = sell
opposite_side sell = buy

pub record CancelledExitInfo (D : Type 0) : Type 0 where
  pub placeholder_id : String
  pub primary_order_id : String
  pub leg_type : ExitLegType
  pub platform : String
  pub symbol : String
  pub side : Side
  pub trigger_price : D
  pub quantity : D

-- `CancelExitResultInternal`
pub data CancelExitResult (D : Type 0) : Type 0 where
  cancelled_pending : CancelledExitInfo D → CancelExitResult D
  needs_cancel_at_provider : List (ActualOrder D) → CancelledExitInfo D → CancelExitResult D
  needs_cancel_partially_triggered : List (ActualOrder D) → CancelledExitInfo D → CancelExitResult D
  needs_cancel_failed : List (ActualOrder D) → CancelledExitInfo D → CancelExitResult D
  already_terminal : ExitEntryStatus D → CancelExitResult D

pub record ExitEntryParams (D : Type 0) : Type 0 where
  pub primary_order_id : String
  pub parent_client_order_id : Option String
  pub order_type : ExitLegType
  pub symbol : String
  pub side : Side
  pub trigger_price : D
  pub limit_price : Option D
  pub quantity : D
  pub platform : TradingPlatform

pub record ExitEntry (D : Type 0) : Type 0 where
  pub placeholder_id : String
  pub primary_order_id : String
  pub position_id : Option String
  pub parent_client_order_id : Option String
  pub order_type : ExitLegType
  pub symbol : String
  pub side : Side
  pub trigger_price : D
  pub limit_price : Option D
  pub quantity : D
  pub original_quantity : D
  pub status : ExitEntryStatus D
  pub created_at : ℕ
  pub created_at_utc : ℕ
  pub updated_at : Option ℕ
  pub platform : TradingPlatform
  pub sibling_id : Option String
  pub last_attempted_fill_qty : Option D
  pub version : ℕ

unfoldable pub generate_placeholder_id : ExitLegType → String → String
unfolding prefix
generate_placeholder_id order_type primary_order_id = prefix order_type ⧺ primary_order_id

-- `ExitEntry::new`
unfoldable pub new_entry : {D : Type 0} → Now → ExitEntryParams D → ExitEntry D
new_entry now params = record {
  placeholder_id = generate_placeholder_id params.order_type params.primary_order_id;
  primary_order_id = params.primary_order_id;
  position_id = none;
  parent_client_order_id = params.parent_client_order_id;
  order_type = params.order_type;
  symbol = params.symbol;
  side = params.side;
  trigger_price = params.trigger_price;
  limit_price = params.limit_price;
  quantity = params.quantity;
  original_quantity = params.quantity;
  status = pending;
  created_at = now.instant;
  created_at_utc = now.utc;
  updated_at = none;
  platform = params.platform;
  sibling_id = none;
  last_attempted_fill_qty = none;
  version = 0;
}

-- `ExitEntry::set_status`
unfoldable pub set_status : {D : Type 0} → Now → ExitEntryStatus D → ExitEntry D → ExitEntry D
set_status now status e = record e {
  status = status;
  updated_at = some now.utc;
  version = e.version + 1;
}

-- `ExitEntry::increment_version`
unfoldable pub increment_version : {D : Type 0} → Now → ExitEntry D → ExitEntry D
increment_version now e = record e { version = e.version + 1; updated_at = some now.utc }

abbrev pub pending_status : {D : Type 0} → ExitEntryStatus D → Bool
pending_status pending = true
pending_status (partially_triggered f t os) = true
pending_status _ = false

-- `ExitEntry::is_pending`
unfoldable pub is_pending : {D : Type 0} → ExitEntry D → Bool
is_pending e = pending_status e.status

pub data PlacementOutcome (D : Type 0) : Type 0 where
  success : (actual_order_id : String) → (order : Order D) → PlacementOutcome D
  placement_failed : (error : String) → (retry_count : ℕ) → PlacementOutcome D
  already_processed : PlacementOutcome D
  deferred : (reason : String) → PlacementOutcome D

pub record PlacementResult (D : Type 0) : Type 0 where
  pub placeholder_id : String
  pub order_type : ExitLegType
  pub outcome : PlacementOutcome D

pub data ErrorCategory : Type 0 where
  infrastructure_failure category_rate_limited exchange_unavailable : ErrorCategory

-- `ErrorCategory::should_count_toward_breaker`
unfoldable pub should_count_toward_breaker : ErrorCategory → Bool
should_count_toward_breaker infrastructure_failure = true
should_count_toward_breaker _ = false

pub data PlaceOrderError (D : Type 0) : Type 0 where
  place_failed :
      (message : String) → (retry_count : ℕ) → (category : ErrorCategory) → PlaceOrderError D
  wash_trade : (message : String) → PlaceOrderError D
  insufficient_balance :
      (message : String) → (requested_quantity available_quantity : D) → PlaceOrderError D

pub record ExitHandlerConfig (D : Type 0) : Type 0 where
  pub max_pending_entries : ℕ
  pub entry_ttl : ℕ
  pub circuit_breaker_threshold : ℕ
  pub circuit_breaker_window : ℕ
  pub min_exit_order_qty : D
  pub retry_delays : List ℕ
