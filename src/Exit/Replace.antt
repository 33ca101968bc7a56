-- ===== src/Exit/Replace.antt =====
-- crates/core/src/exit_management/replace.rs: moving the resting orders of an exit leg to a new
-- trigger price. The lock of fill processing makes the whole move one step.
pub mod Outcome
use trading_gateway.Base.{
  ℕ, ◌+◌, ◌-◌, ◌*◌, ◌≤◌, ◌<◌, String, ◌⧺◌, Bool, true, false, ◌&&◌, ◌||◌, Option, none, some, List,
  [], ◌∷◌, ◌++◌, any, retain, length, is_empty, ◌==◌, string_eq, nat_eq, find_map, if◌then◌else◌,
  ◌≡◌, ◌↔◌, ◌⊎◌,
}
use trading_gateway.Base.Map.{lookup}
use trading_gateway.Base.Decimal.{Decimal}
use trading_gateway.Models.Error.{
  unsupported_operation, order_not_modifiable, GatewayError, GatewayResult, ok, err,
  order_not_found, display,
}
use trading_gateway.Models.Order.{ModifyOrderRequest, ModifyOrderResult}
use trading_gateway.Exit.Types.{
  Now, ExitLegType, stop_loss, take_profit, leg_eq, ActualOrder, is_active, remaining_qty,
  ExitEntry, ExitEntryStatus, partially_triggered, placed, failed, cancelled, actual_orders,
  increment_version, open_order,
}
use trading_gateway.Exit.Handler.{Handler}
use trading_gateway.Exit.Placement.{Market, build_exit_order_request}
use trading_gateway.Exit.Fill.{update_entry, update_entry_to_failed}

pub data ReplaceExitLegError : Type 0 where
  still_protected : GatewayError → ReplaceExitLegError
  unprotected :
      (cancelled_order_id : String) → (source restore_error : GatewayError) → ReplaceExitLegError

-- `Result<T, ReplaceExitLegError>`
pub data MoveResult (A : Type 0) : Type 0 where
  moved : A → MoveResult A
  not_moved : ReplaceExitLegError → MoveResult A

pub record ExitLegPlacement (D : Type 0) : Type 0 where
  pub order_ids : List String
  pub trigger_price : D

-- `Display` of `ExitLegType`.
unfoldable pub leg_name : ExitLegType → String
leg_name stop_loss = "stop_loss"
leg_name take_profit = "take_profit"

abbrev at_position : String → Option String → Bool
at_position position_id none = false
at_position position_id (some id) = id == position_id

module _ {D : Type 0} where
  abbrev live_leg_status : ExitEntryStatus D → Bool
  live_leg_status (placed os) = true
  live_leg_status (partially_triggered f t os) = true
  live_leg_status _ = false

  unfoldable pub live_exit_leg : String → ExitLegType → Handler D → Option (ExitEntry D)
  unfolding actual_orders is_active
  live_exit_leg position_id leg h =
      find_map
        (λ p.
          if at_position position_id p.1.position_id
            && (p.1.order_type == leg
                && (live_leg_status p.1.status && any is_active (actual_orders p.1.status)))
          then some p.1
          else none)
        h.pending_by_placeholder

  unfoldable pub modify_request : ExitLegType → D → ModifyOrderRequest D
  modify_request stop_loss price = record {
    limit_price = none;
    stop_price = some price;
    quantity = none;
    stop_loss = none;
    take_profit = none;
    trailing_distance = none;
  }
  modify_request take_profit price = record {
    limit_price = some price;
    stop_price = none;
    quantity = none;
    stop_loss = none;
    take_profit = none;
    trailing_distance = none;
  }

  abbrev placed_orders_of : Option (ExitEntry D) → ℕ
  placed_orders_of none = 0
  placed_orders_of (some e) = length (actual_orders e.status)

  unfoldable pub placed_count : String → Handler D → ℕ
  placed_count id h = placed_orders_of (lookup id h.pending_by_placeholder)

  -- Replaces the first order with the id of the previous one, or appends.
  unfoldable pub swap_order : String → ActualOrder D → List (ActualOrder D) → List (ActualOrder D)
  swap_order previous replacement [] = replacement ∷ []
  swap_order previous replacement (o ∷ os) =
      if o.order_id == previous then replacement ∷ os else o ∷ swap_order previous replacement os

  abbrev pub with_orders : List (ActualOrder D) → ExitEntryStatus D → ExitEntryStatus D
  with_orders orders (partially_triggered filled total os) = partially_triggered filled total orders
  with_orders orders (failed error retry_count failed_at os) =
      failed error retry_count failed_at orders
  with_orders orders _ = placed orders

module _ {D : Type 0} ⦃dec : Decimal D⦄ where
  abbrev pub replacement_of : Now → ActualOrder D → String → ActualOrder D
  replacement_of now previous new_order_id = record {
    order_id = new_order_id;
    quantity = remaining_qty previous;
    placed_at = now.utc;
    status = open_order;
    leg_type = previous.leg_type;
  }

  abbrev pub moved_entry : Now → ActualOrder D → String → D → ExitEntry D → ExitEntry D
  moved_entry now previous new_order_id price e = increment_version now (record e {
    trigger_price = price;
    status =
        with_orders
          (swap_order previous.order_id (replacement_of now previous new_order_id)
            (actual_orders e.status))
          e.status;
  })

  unfoldable pub record_moved_leg :
      Now → String → ActualOrder D → String → D → Handler D → Handler D
  unfolding swap_order increment_version remaining_qty actual_orders
  record_moved_leg now id previous new_order_id price h =
      update_entry id (moved_entry now previous new_order_id price) h

  module _ {W : Type 0} (market : Market D W) where
    -- The end of `cancel_and_replace`, where the replacement was rejected.
    unfoldable pub restore_exit :
        String
        → ExitEntry D
        → ActualOrder D
        → GatewayError
        → Handler D
        → W
        → MoveResult String × (Handler D × W)
    unfolding build_exit_order_request placed_count record_moved_leg update_entry_to_failed display
    restore_exit id e resting source h w =
        let restore =
          build_exit_order_request e (remaining_qty resting) (placed_count id h) e.position_id in
        let (answer, w1) = market.adapter.submit_order restore w in
        let now = market.clock w1 in
        elim answer [
          | ok handle ↦ (
            not_moved (
                still_protected (
                  order_not_modifiable resting.order_id (
                    "replacement rejected ("
                    ⧺ (display source ⧺ "); the original exit was restored")))),
            (record_moved_leg now id resting handle.id e.trigger_price h, w1),
          )
          | err restore_error ↦ (
            not_moved (unprotected resting.order_id source restore_error),
            (update_entry_to_failed now id (display restore_error) 0 h, w1),
          )
        ]

    unfoldable pub cancel_and_replace :
        String
        → ExitEntry D
        → ActualOrder D
        → D
        → Handler D
        → W
        → MoveResult String × (Handler D × W)
    unfolding restore_exit
    cancel_and_replace id e resting price h w =
        let (stopped, w1) = market.adapter.cancel_order resting.order_id w in
        let replacement =
          build_exit_order_request (record e { trigger_price = price }) (remaining_qty resting)
            (placed_count id h) e.position_id in
        let (answer, w2) = market.adapter.submit_order replacement w1 in
        elim stopped [
          | err error ↦ (not_moved (still_protected error), (h, w1))
          | ok _ ↦ elim answer [
            | ok handle ↦ (
              moved handle.id,
              (record_moved_leg (market.clock w2) id resting handle.id price h, w2),
            )
            | err source ↦ restore_exit id e resting source h w2
          ]
        ]

    abbrev pub by_answer :
        String
        → ExitEntry D
        → ActualOrder D
        → D
        → Handler D
        → W
        → GatewayResult (ModifyOrderResult D)
        → MoveResult String × (Handler D × W)
    by_answer id e resting price h w (ok result) = (
      moved result.order.id,
      (record_moved_leg (market.clock w) id resting result.order.id price h, w),
    )
    by_answer id e resting price h w (err (unsupported_operation operation provider)) =
        cancel_and_replace id e resting price h w
    by_answer id e resting price h w (err error) = (not_moved (still_protected error), (h, w))

    unfoldable pub move_resting_order :
        String
        → ExitEntry D
        → ActualOrder D
        → D
        → Handler D
        → W
        → MoveResult String × (Handler D × W)
    unfolding record_moved_leg cancel_and_replace
    move_resting_order id e resting price h w =
        let (answer, w1) =
          market.adapter.modify_order resting.order_id (modify_request e.order_type price) w in
        by_answer id e resting price h w1 answer

    -- The loop of `replace_exit_leg`, which stops at the first order that cannot be moved.
    unfoldable pub move_each :
        String
        → ExitEntry D
        → List (ActualOrder D)
        → D
        → Handler D
        → W
        → MoveResult (List String) × (Handler D × W)
    unfolding move_resting_order
    move_each id e [] price h w = (moved [], (h, w))
    move_each id e (o ∷ os) price h w =
        let (first, (h1, w1)) = move_resting_order id e o price h w in
        let (others, (h2, w2)) = move_each id e os price h1 w1 in
        elim first [
          | not_moved error ↦ (not_moved error, (h1, w1))
          | moved order_id ↦ elim others [
            | not_moved error ↦ (not_moved error, (h2, w2))
            | moved order_ids ↦ (moved (order_id ∷ order_ids), (h2, w2))
          ]
        ]

    abbrev placement :
        D
        → MoveResult (List String) × (Handler D × W)
        → MoveResult (ExitLegPlacement D) × (Handler D × W)
    placement price (moved order_ids, s) =
        (moved (record { order_ids = order_ids; trigger_price = price }), s)
    placement price (not_moved error, s) = (not_moved error, s)

    unfoldable pub replace_exit_leg :
        String → D → Handler D → W → MoveResult (ExitLegPlacement D) × (Handler D × W)
    unfolding move_each leg_name actual_orders is_active
    replace_exit_leg id price h w = elim (lookup id h.pending_by_placeholder) [
      | none ↦ (not_moved (still_protected (order_not_found id)), (h, w))
      | some e ↦
          let resting = retain is_active (actual_orders e.status) in
          if is_empty resting
          then (
            not_moved (
                still_protected (
                  order_not_modifiable id
                    (leg_name e.order_type ⧺ " leg has no resting order to move"))),
            (h, w),
          )
          else placement price (move_each id e resting price h w)
    ]
