-- ===== src/Exit/FillEvents.antt =====
-- crates/core/src/exit_management/fill_handler.rs: fills that reach the handler, those of entry
-- orders, those of exit legs, and those that come before the exits of their order are registered.
use trading_gateway.Base.{
  ℕ, ◌-◌, String, Bool, true, false, ◌&&◌, ◌||◌, Option, none, some, List, [], ◌∷◌, retain, length,
  is_empty, leb, string_eq, nat_eq, find_map, if◌then◌else◌,
}
use trading_gateway.Base.Map.{Map, lookup, insert, remove, contains_key}
use trading_gateway.Base.Decimal.{Decimal, zero_d, le_dec}
use trading_gateway.Models.Error.{ok, err}
use trading_gateway.Models.Adapter.{Adapter}
use trading_gateway.Exit.Types.{
  Now, leg_eq, ActualOrder, is_active, ExitEntry, ExitEntryStatus, actual_orders, PlacementResult,
}
use trading_gateway.Exit.Index.{placeholders, remove_batch_from_secondary_index}
use trading_gateway.Exit.Handler.{has_pending_for_primary, Handler, BufferedFill, owns}
use trading_gateway.Exit.Fill.{process_entry_fill}
use trading_gateway.Exit.Placement.{Market}

abbrev max_unmatched_fills : ℕ
max_unmatched_fills = 256

-- In milliseconds.
abbrev unmatched_fill_ttl : ℕ
unmatched_fill_ttl = 30000

-- What a fill says of an order.
pub record FillEvent (D : Type 0) : Type 0 where
  pub filled_qty : D
  pub total_qty : D
  pub position_qty : Option D
  pub position_id : Option String

module _ {D : Type 0} where
  abbrev fresh : Now → String × BufferedFill D → Bool
  fresh now p = leb (now.instant - p.1.buffered_at) unmatched_fill_ttl

  unfoldable pub sweep_unmatched_fills :
      Now → Map String (BufferedFill D) → Map String (BufferedFill D)
  sweep_unmatched_fills now fills = retain (fresh now) fills

  -- The key that was buffered first, `min_by_key`.
  unfoldable pub oldest : Map String (BufferedFill D) → Option (String × ℕ)
  oldest [] = none
  oldest ((key, fill) ∷ fills) = elim (oldest fills) [
    | none ↦ some (key, fill.buffered_at)
    | some best ↦ if leb fill.buffered_at best.1 then some (key, fill.buffered_at) else some best
  ]

  unfoldable pub evict_oldest : Map String (BufferedFill D) → Map String (BufferedFill D)
  unfolding oldest
  evict_oldest fills = elim (oldest fills) [ none ↦ fills | some best ↦ remove best.0 fills ]

  abbrev pub buffered : Now → FillEvent D → BufferedFill D
  buffered now fill = record {
    filled_qty = fill.filled_qty;
    total_qty = fill.total_qty;
    position_qty = fill.position_qty;
    position_id = fill.position_id;
    buffered_at = now.instant;
  }

  abbrev pub replayed : BufferedFill D → FillEvent D
  replayed fill = record {
    filled_qty = fill.filled_qty;
    total_qty = fill.total_qty;
    position_qty = fill.position_qty;
    position_id = fill.position_id;
  }

  unfoldable pub buffer_unmatched_fill : Now → String → FillEvent D → Handler D → Handler D
  unfolding sweep_unmatched_fills evict_oldest
  buffer_unmatched_fill now order_id fill h =
      let swept = sweep_unmatched_fills now h.unmatched_fills in
      let kept = if leb max_unmatched_fills (length swept) then evict_oldest swept else swept in
      record h { unmatched_fills = insert order_id (buffered now fill) kept }

  -- `find_entry_by_actual_order`
  unfoldable pub find_entry_by_actual_order :
      String → Map String (ExitEntry D) → Option (ExitEntry D)
  unfolding actual_orders
  find_entry_by_actual_order order_id m =
      find_map (λ p. if owns order_id p.1 then some p.1 else none) m

  unfoldable pub remove_pending_entry : String → String → Handler D → Handler D
  unfolding remove_batch_from_secondary_index
  remove_pending_entry placeholder_id primary_order_id h = record h {
    pending_by_placeholder = remove placeholder_id h.pending_by_placeholder;
    pending_by_primary =
        remove_batch_from_secondary_index primary_order_id (placeholder_id ∷ [])
          h.pending_by_primary;
  }

module _ {D W : Type 0} (adapter : Adapter D W) where
  -- Cancels the active ones of some orders; `true` if no cancellation failed.
  unfoldable pub cancel_active : List (ActualOrder D) → W → Bool × W
  unfolding is_active
  cancel_active [] w = (true, w)
  cancel_active (o ∷ os) w =
      let skipped = cancel_active os w in
      let (answer, w1) = adapter.cancel_order o.order_id w in
      let (all_cancelled, w2) = cancel_active os w1 in
      if is_active o
      then elim answer [ ok _ ↦ (all_cancelled, w2) | err e ↦ (false, w2) ]
      else skipped

  unfoldable pub cancel_exit_leg_orders : String → String → Handler D → W → Handler D × W
  unfolding cancel_active remove_pending_entry
  cancel_exit_leg_orders placeholder_id primary_order_id h w =
      elim (lookup placeholder_id h.pending_by_placeholder) [
        | none ↦ (h, w)
        | some e ↦
            let (all_cancelled, w1) = cancel_active (actual_orders e.status) w in
            if all_cancelled
            then (remove_pending_entry placeholder_id primary_order_id h, w1)
            else (h, w1)
      ]

  -- The part of `handle_exit_leg_fill` for a full fill of a leg.
  unfoldable pub resolve_pair : ExitEntry D → Handler D → W → Handler D × W
  unfolding remove_pending_entry cancel_exit_leg_orders
  resolve_pair e h w =
      let h1 = remove_pending_entry e.placeholder_id e.primary_order_id h in
      elim e.sibling_id [
        | none ↦ (h1, w)
        | some sibling ↦ cancel_exit_leg_orders sibling e.primary_order_id h1 w
      ]

  unfoldable pub handle_exit_leg_fill : String → Bool → Handler D → W → Bool × (Handler D × W)
  unfolding find_entry_by_actual_order resolve_pair
  handle_exit_leg_fill order_id is_full_fill h w =
      elim (find_entry_by_actual_order order_id h.pending_by_placeholder) [
        | none ↦ (false, (h, w))
        | some e ↦ if is_full_fill then (true, resolve_pair e h w) else (true, (h, w))
      ]

module _ {D W : Type 0} ⦃dec : Decimal D⦄ (market : Market D W)
    (describe : ExitEntryStatus D → String) where
  unfoldable pub process_entries :
      List String → FillEvent D → Handler D → W → List (PlacementResult D) × (Handler D × W)
  unfolding process_entry_fill
  process_entries [] fill h w = ([], (h, w))
  process_entries (id ∷ ids) fill h w =
      let (outcome, (h1, w1)) =
        process_entry_fill market describe id fill.filled_qty fill.total_qty fill.position_qty
          fill.position_id h w in
      let (outcomes, (h2, w2)) = process_entries ids fill h1 w1 in (outcome ∷ outcomes, (h2, w2))

  -- A fill of an order that had no registered exits: `meanwhile` is what other tasks have done to
  -- the handler between the lookup of the exits and the buffering of the fill.
  unfoldable pub handle_unmatched :
      (Handler D → Handler D)
      → String
      → FillEvent D
      → Handler D
      → W
      → List (PlacementResult D) × (Handler D × W)
  unfolding buffer_unmatched_fill has_pending_for_primary process_entries placeholders
  handle_unmatched meanwhile order_id fill h w =
      let h1 = buffer_unmatched_fill (market.clock w) order_id fill (meanwhile h) in
      let h2 = record h1 { unmatched_fills = remove order_id h1.unmatched_fills } in
      if has_pending_for_primary order_id h1 && contains_key order_id h1.unmatched_fills
      then process_entries (placeholders order_id h2.pending_by_primary) fill h2 w
      else ([], (h1, w))

  -- A fill of an order without registered exits.
  unfoldable pub handle_unregistered :
      (Handler D → Handler D)
      → String
      → FillEvent D
      → Handler D
      → W
      → List (PlacementResult D) × (Handler D × W)
  unfolding handle_exit_leg_fill handle_unmatched
  handle_unregistered meanwhile order_id fill h w =
      let is_full_fill = le_dec fill.total_qty fill.filled_qty in
      let (resolved, (h1, w1)) = handle_exit_leg_fill market.adapter order_id is_full_fill h w in
      if resolved then ([], (h1, w1)) else handle_unmatched meanwhile order_id fill h1 w1

  -- `handle_fill_internal`
  unfoldable pub handle_fill :
      (Handler D → Handler D)
      → String
      → FillEvent D
      → Handler D
      → W
      → List (PlacementResult D) × (Handler D × W)
  unfolding handle_unregistered process_entries placeholders
  handle_fill meanwhile order_id fill h w =
      let ids = placeholders order_id h.pending_by_primary in
      if le_dec fill.filled_qty zero_d || le_dec fill.total_qty zero_d
      then ([], (h, w))
      else if is_empty ids
      then handle_unregistered meanwhile order_id fill h w
      else process_entries ids fill h w

  unfoldable pub process_buffered_fill :
      (Handler D → Handler D) → String → Handler D → W → List (PlacementResult D) × (Handler D × W)
  unfolding handle_fill
  process_buffered_fill meanwhile order_id h w = elim (lookup order_id h.unmatched_fills) [
    | none ↦ ([], (h, w))
    | some fill ↦
        handle_fill meanwhile order_id (replayed fill)
          (record h { unmatched_fills = remove order_id h.unmatched_fills }) w
  ]
