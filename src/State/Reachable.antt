-- ===== src/State/Reachable.antt =====
-- The operations of the state manager (crates/core/src/state/mod.rs) as calls, and the states that
-- they lead to from the empty one.
use mathlib.Core.Option
use trading_gateway.Base.{
  String, Option, none, some, List, [], ◌∷◌, option_eq, string_eq, nat_eq, ◌≡◌, inl, inr, refl,
  arith, Option-cases,
}
use trading_gateway.Base.Map.{lookup, lookup-modify}
use trading_gateway.Models.{OrderStatus}
use trading_gateway.State.{
  CachedOrder, StateManager, OcoFillRecord, with_fill, update_order_fill, record_oco_fill,
  clear_oco_fill, upsert_order, remove_order, add_to_oco_group, upsert_position, remove_position,
  new_state, sync_from_provider,
}
use trading_gateway.State.Links.{
  IsLinked, IsIndexed, group_of, upsert_order-IsLinked, remove_order-IsLinked,
  add_to_oco_group-IsLinked, upsert_position-IsIndexed, remove_position-IsIndexed,
  sync_from_provider-links,
}
use trading_gateway.Models.Position.{Position}
use trading_gateway.Models.Order.{Order}
use trading_gateway.Exit.Types.{leg_eq}

pub data StateCall (D : Type 0) : Type 0 where
  call_upsert_order : Order D → StateCall D
  call_update_order_fill : String → D → OrderStatus → StateCall D
  call_remove_order : String → StateCall D
  call_upsert_position : Position D → StateCall D
  call_remove_position : String → StateCall D
  call_add_to_oco_group : String → String → StateCall D
  call_record_oco_fill : String → OcoFillRecord D → StateCall D
  call_clear_oco_fill : String → StateCall D
  call_sync : List (Order D) → List (Position D) → StateCall D

module _ {D : Type 0} where
  unfoldable pub apply_call : StateCall D → StateManager D → StateManager D
  unfolding upsert_order update_order_fill remove_order upsert_position remove_position
      add_to_oco_group record_oco_fill clear_oco_fill sync_from_provider
  apply_call (call_upsert_order order) s = upsert_order order s
  apply_call (call_update_order_fill id qty status) s = (update_order_fill id qty status s).1
  apply_call (call_remove_order id) s = (remove_order id s).1
  apply_call (call_upsert_position p) s = upsert_position p s
  apply_call (call_remove_position id) s = (remove_position id s).1
  apply_call (call_add_to_oco_group order_id group_id) s = add_to_oco_group order_id group_id s
  apply_call (call_record_oco_fill group_id fill) s = (record_oco_fill group_id fill s).1
  apply_call (call_clear_oco_fill group_id) s = clear_oco_fill group_id s
  apply_call (call_sync orders positions) s = sync_from_provider orders positions s

  unfoldable pub apply_calls : List (StateCall D) → StateManager D → StateManager D
  unfolding apply_call
  apply_calls [] s = s
  apply_calls (c ∷ cs) s = apply_calls cs (apply_call c s)

  group_of-fill :
      (q : D) (status : OrderStatus) (o : Option (CachedOrder D))
      → group_of (Option.map (with_fill q status) o) ≡ group_of o
  group_of-fill q status none = refl
  group_of-fill q status (some o) = refl

  update_order_fill-IsLinked :
      (id : String) (q : D) (status : OrderStatus) (s : StateManager D)
      → IsLinked s
      → IsLinked (update_order_fill id q status s).1
  unfolding update_order_fill
  update_order_fill-IsLinked id q status s c = record {
    linked = λ k g at. ground (
      arith,
      lookup-modify id k (with_fill q status) s.orders,
      group_of-fill q status (lookup k s.orders),
      c.linked k g,
    );
  }

  remove_order-IsIndexed :
      (id : String) (s : StateManager D) → IsIndexed s → IsIndexed (remove_order id s).1
  unfolding remove_order
  remove_order-IsIndexed id s i = elim (Option-cases (lookup id s.orders)) [
    | inl missing ↦ rw (remove_order, missing) i
    | inr (o, found) ↦ rw (remove_order, found) (record { indexed = i.indexed })
  ]

  remove_position-IsLinked :
      (id : String) (s : StateManager D) → IsLinked s → IsLinked (remove_position id s).1
  unfolding remove_position
  remove_position-IsLinked id s l = elim (Option-cases (lookup id s.positions)) [
    | inl missing ↦ rw (remove_position, missing) l
    | inr (p, found) ↦ rw (remove_position, found) (record { linked = l.linked })
  ]

  record_oco_fill-links :
      (group_id : String) (fill : OcoFillRecord D) (s : StateManager D)
      → IsLinked s × IsIndexed s
      → IsLinked (record_oco_fill group_id fill s).1 × IsIndexed (record_oco_fill group_id fill s).1
  unfolding record_oco_fill
  record_oco_fill-links group_id fill s (l, i) = elim (Option-cases (lookup group_id s.oco_fills)) [
    | inl first ↦
        rw (record_oco_fill, first) (record { linked = l.linked }, record { indexed = i.indexed })
    | inr (earlier, found) ↦ rw (record_oco_fill, found) (l, i)
  ]

  apply_call-links :
      (c : StateCall D) (s : StateManager D)
      → IsLinked s × IsIndexed s
      → IsLinked (apply_call c s) × IsIndexed (apply_call c s)
  unfolding apply_call upsert_order update_order_fill upsert_position add_to_oco_group
      clear_oco_fill
  apply_call-links (call_upsert_order order) s (l, i) =
      (upsert_order-IsLinked order s l, record { indexed = i.indexed })
  apply_call-links (call_update_order_fill id q status) s (l, i) =
      (update_order_fill-IsLinked id q status s l, record { indexed = i.indexed })
  apply_call-links (call_remove_order id) s (l, i) =
      (remove_order-IsLinked id s l, remove_order-IsIndexed id s i)
  apply_call-links (call_upsert_position p) s (l, i) =
      (record { linked = l.linked }, upsert_position-IsIndexed p s i)
  apply_call-links (call_remove_position id) s (l, i) =
      (remove_position-IsLinked id s l, remove_position-IsIndexed id s i)
  apply_call-links (call_add_to_oco_group order_id group_id) s (l, i) =
      (add_to_oco_group-IsLinked order_id group_id s l, record { indexed = i.indexed })
  apply_call-links (call_record_oco_fill group_id fill) s (l, i) =
      record_oco_fill-links group_id fill s (l, i)
  apply_call-links (call_clear_oco_fill group_id) s (l, i) =
      (record { linked = l.linked }, record { indexed = i.indexed })
  apply_call-links (call_sync orders positions) s (l, i) =
      sync_from_provider-links orders positions s

  apply_calls-from :
      (cs : List (StateCall D)) (s : StateManager D)
      → IsLinked s × IsIndexed s
      → IsLinked (apply_calls cs s) × IsIndexed (apply_calls cs s)
  unfolding apply_calls
  apply_calls-from [] s l = l
  apply_calls-from (c ∷ cs) s l = apply_calls-from cs (apply_call c s) (apply_call-links c s l)

  -- Whatever calls the state manager serves, in whatever order, from the empty state on: every
  -- cached order of a group is a member of the group, and the symbol index leads to positions of
  -- that symbol.
  pub apply_calls-links :
      (cs : List (StateCall D))
      → IsLinked (apply_calls cs new_state) × IsIndexed (apply_calls cs new_state)
  unfolding new_state lookup
  apply_calls-links cs =
      apply_calls-from cs new_state
        (record { linked = λ k g at. ground arith }, record { indexed = λ k g at. ground arith })
