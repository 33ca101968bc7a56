-- ===== src/Exit/Replace/Outcome.antt =====
-- What a move of a resting exit order leaves behind, by its result
-- (crates/core/src/exit_management/replace.rs).
use trading_gateway.Base.{
  String, Bool, true, false, Option, none, some, List, [], ◌∷◌, any, length, ◌==◌, string_eq,
  nat_eq, beq_refl, ◌≡◌, ◌⊎◌, arith,
}
use trading_gateway.Base.Map.{lookup, lookup-modify}
use trading_gateway.Base.Decimal.{Decimal}
use trading_gateway.Models.Error.{GatewayResult, ok, err}
use trading_gateway.Exit.Types.{
  Now, leg_eq, ActualOrder, ExitEntry, ExitEntryStatus, actual_orders, increment_version,
}
use trading_gateway.Exit.Handler.{Handler, owns}
use trading_gateway.Exit.Placement.{Market, exit_client_order_id}
use trading_gateway.Exit.Cancellation.{failed_status}
use trading_gateway.Exit.Replace.{
  unsupported_operation, still_protected, unprotected, MoveResult, moved, not_moved,
  record_moved_leg, moved_entry, replacement_of, swap_order, with_orders, placed_count,
}

-- The specification: whether the answers leave the order at the broker as it was. It was not
-- changed, and unless the broker cannot change orders at all it was not cancelled either.
abbrev pub stays_resting : {A B : Type 0} → GatewayResult A → GatewayResult B → Bool
stays_resting (ok result) stopped = false
stays_resting (err (unsupported_operation operation provider)) (ok u) = false
stays_resting (err (unsupported_operation operation provider)) (err e) = true
stays_resting (err e) stopped = true

module _ {D : Type 0} ⦃dec : Decimal D⦄ where
  length-swap :
      (previous : String) (o : ActualOrder D) (os : List (ActualOrder D))
      → any (λ x. x.order_id == previous) os ≡ true
      → length (swap_order previous o os) ≡ length os
  unfolding swap_order
  length-swap previous o [] has = ground arith
  length-swap previous o (x ∷ os) has = ground (arith, length-swap previous o os)

  orders-with_orders :
      (os : List (ActualOrder D)) (s : ExitEntryStatus D) → actual_orders (with_orders os s) ≡ os
  unfolding actual_orders
  orders-with_orders os s = ground arith

  abbrev owned_at : String → Option (ExitEntry D) → Bool
  owned_at order_id none = false
  owned_at order_id (some e) = owns order_id e

  abbrev failed_at : Option (ExitEntry D) → Bool
  failed_at none = false
  failed_at (some e) = failed_status e.status

  -- Moving a tracked order does not change the number of orders of its entry, so that the next
  -- replacement of the leg goes out under the client order id of this one.
  pub moves_reuse_client_order_id :
      (now : Now) (id : String) (previous : ActualOrder D) (new_id : String) (price : D)
      (x : ExitEntry D) (h : Handler D)
      → lookup id h.pending_by_placeholder ≡ some x
      → owns previous.order_id x ≡ true
      → exit_client_order_id
          (moved_entry now previous new_id price x)
          (placed_count id (record_moved_leg now id previous new_id price h))
        ≡ exit_client_order_id x (placed_count id h)
  unfolding record_moved_leg placed_count exit_client_order_id increment_version
  moves_reuse_client_order_id now id previous new_id price x h at tracked =
      let o = replacement_of now previous new_id in
      let os = swap_order previous.order_id o (actual_orders x.status) in
      ground (
        arith,
        lookup-modify id id (moved_entry now previous new_id price) h.pending_by_placeholder,
        beq_refl id,
        orders-with_orders os x.status,
        length-swap previous.order_id o (actual_orders x.status),
      )

  -- An entry that tracks an order, at a trigger price.
  abbrev pub TracksAt : String → D → Option (ExitEntry D) → Type 0
  TracksAt order_id price none = ⊥
  TracksAt order_id price (some e) = (owns order_id e ≡ true) × (e.trigger_price ≡ price)

  -- What a result says of the handler `h'` after the move of `resting`, an order of the entry `x`
  -- that stood under `id` in `h`. A moved order is tracked, at the new price. An unprotected leg has
  -- failed, and its error names the cancelled order. Where a leg is still protected, the order rests
  -- at the broker and nothing has changed; or it does not, and the entry tracks an order that restores
  -- it at the old price.
  unfoldable pub Outcome :
      (id : String) (e x : ExitEntry D) (resting : ActualOrder D) (price : D) (rests : Bool)
      (h h' : Handler D)
      → MoveResult String
      → Type 0
  Outcome id e x resting price rests h h' (moved new_id) =
      TracksAt new_id price (lookup id h'.pending_by_placeholder)
  Outcome id e x resting price rests h h' (not_moved (unprotected order_id source restore_error)) =
      (rests ≡ false)
      × (order_id ≡ resting.order_id)
      × (failed_at (lookup id h'.pending_by_placeholder) ≡ true)
  Outcome id e x resting price rests h h' (not_moved (still_protected error)) =
      ((rests ≡ true) × (h' ≡ h))
      ⊎ ((rests ≡ false)
          × ((now : Now) × (new_id : String) × TracksAt new_id e.trigger_price
                (lookup id h'.pending_by_placeholder)
              × (lookup id h'.pending_by_placeholder
                  ≡ some (moved_entry now resting new_id e.trigger_price x))))

  module _ {W : Type 0} (market : Market D W) (id : String) (e x : ExitEntry D)
      (resting : ActualOrder D) (h : Handler D)
      (at : lookup id h.pending_by_placeholder ≡ some x) where
    abbrev pub cancel_answer : W → GatewayResult (Unit {0})
    cancel_answer w = (market.adapter.cancel_order resting.order_id w).0
