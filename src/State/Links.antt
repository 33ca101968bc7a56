-- ===== src/State/Links.antt =====
-- How the maps of the state manager hang together (crates/core/src/state/mod.rs).
use trading_gateway.Base.{
  String, true, false, ◌&&◌, ◌||◌, not, Option, none, some, List, [], ◌∷◌, is_empty, ◌==◌,
  option_beq_iff, option_eq, string_eq, nat_eq, beq_refl, if◌then◌else◌, ◌≡◌, ◌↔◌, inl, inr, refl,
  arith, Option-cases,
}
use trading_gateway.Base.Map.{Map, lookup, lookup-insert, lookup-remove, lookup-modify}
use trading_gateway.Models.Order.{Order}
use trading_gateway.Exit.Types.{leg_eq}
use trading_gateway.Exit.Index.{member, member-append}
use trading_gateway.State.{
  leave_old, join_new, CachedOrder, CachedPosition, StateManager, add_id, drop_id, group_members,
  join_group, leave_group, leave_old, join_new, leave_stale, cached_order, upsert_order,
  remove_order, with_group, add_to_oco_group, cached_position, release_symbol, upsert_position,
  remove_position, new_state, upsert_orders, upsert_positions, sync_from_provider,
}
use trading_gateway.Models.Position.{Position}

same_option : (a b : Option String) → ((a == b) ≡ true) ↔ (a ≡ b)
same_option a b = option_beq_iff a b

member-add_id :
    (k id : String) (ids : List String) → member k (add_id id ids) ≡ (member k ids || id == k)
unfolding add_id
member-add_id k id ids = ground (arith, member-append k ids (id ∷ []), string_eq.beq_iff id k)

member-drop_id :
    (k id : String) (ids : List String)
    → member k (drop_id id ids) ≡ (member k ids && not (id == k))
unfolding drop_id
member-drop_id k id [] = refl
member-drop_id k id (x ∷ ids) = ground (
  arith,
  member-drop_id k id ids,
  string_eq.beq_iff x id,
  string_eq.beq_iff x k,
  string_eq.beq_iff id k,
)

members-join :
    (k p q id : String) (groups : Map String (List String))
    → member k (group_members (lookup q (join_group p id groups)))
      ≡ (member k (group_members (lookup q groups)) || (p == q && id == k))
unfolding join_group
members-join k p q id groups =
    let ids = add_id id (group_members (lookup p groups)) in
    ground (
      arith,
      lookup-insert p q ids groups,
      string_eq.beq_iff p q,
      member-add_id k id (group_members (lookup p groups)),
    )

nil_of_empty : (xs : List String) → is_empty xs ≡ true → xs ≡ []
nil_of_empty [] h = refl
nil_of_empty (x ∷ xs) h = cc

members-leave :
    (k p q id : String) (groups : Map String (List String))
    → member k (group_members (lookup q (leave_group p id groups)))
      ≡ (member k (group_members (lookup q groups)) && not (p == q && id == k))
unfolding leave_group
members-leave k p q id groups = elim (Option-cases (lookup p groups)) [
  | inl n ↦ ground (arith, string_eq.beq_iff p q)
  | inr (ids, s) ↦
      let left = drop_id id ids in
      ground (
        arith,
        string_eq.beq_iff p q,
        lookup-remove p q groups,
        lookup-insert p q left groups,
        nil_of_empty left,
        member-drop_id k id ids,
      )
]

members-join_new :
    (order_id : String) (group : Option String) (k g : String) (groups : Map String (List String))
    → member k (group_members (lookup g (join_new order_id group groups)))
      ≡ (member k (group_members (lookup g groups)) || (group == some g && order_id == k))
members-join_new order_id none k g groups = ground (arith, same_option none (some g))
members-join_new order_id (some p) k g groups = ground (
  arith,
  members-join k p g order_id groups,
  same_option (some p) (some g),
  string_eq.beq_iff p g,
)

members-leave_old :
    (order_id : String) (group : Option String) (k g : String) (groups : Map String (List String))
    → (order_id == k) ≡ false
    → member k (group_members (lookup g (leave_old order_id group groups)))
      ≡ member k (group_members (lookup g groups))
members-leave_old order_id none k g groups other = refl
members-leave_old order_id (some p) k g groups other =
    ground (arith, members-leave k p g order_id groups)

lookup-release_symbol :
    (symbol id asked : String) (index : Map String String)
    → lookup asked (release_symbol symbol id index)
      ≡ (if symbol == asked && lookup symbol index == some id then none else lookup asked index)
unfolding release_symbol
lookup-release_symbol symbol id asked index = ground (arith, lookup-remove symbol asked index)

module _ {D : Type 0} where
  abbrev pub group_of : Option (CachedOrder D) → Option String
  group_of none = none
  group_of (some o) = o.oco_group_id

  -- Every cached order of a group is a member of it.
  pub record IsLinked (s : StateManager D) : Type 0 where
    pub linked :
        (k g : String)
        → group_of (lookup k s.orders) ≡ some g
        → member k (group_members (lookup g s.oco_groups)) ≡ true

  members-leave_stale :
      (order : Order D) (old : Option (CachedOrder D)) (k g : String)
      (groups : Map String (List String))
      → (order.id == k) ≡ false
      → member k (group_members (lookup g (leave_stale order old groups)))
        ≡ member k (group_members (lookup g groups))
  members-leave_stale order none k g groups other = refl
  members-leave_stale order (some old) k g groups other = elim (Option-cases old.oco_group_id) [
    | inl n ↦ ground (arith, same_option old.oco_group_id order.oco_group_id)
    | inr (p, e) ↦ ground (
      arith,
      same_option old.oco_group_id order.oco_group_id,
      members-leave k p g order.id groups,
    )
  ]

  -- Caching an order keeps cached orders members of their groups, also when it changes its group.
  pub upsert_order-IsLinked :
      (order : Order D) (s : StateManager D) → IsLinked s → IsLinked (upsert_order order s)
  unfolding upsert_order
  upsert_order-IsLinked order s c = record {
    linked = λ k g at.
        let stale = leave_stale order (lookup order.id s.orders) s.oco_groups in
        ground (
          arith,
          lookup-insert order.id k (cached_order order) s.orders,
          members-join_new order.id order.oco_group_id k g stale,
          members-leave_stale order (lookup order.id s.orders) k g s.oco_groups,
          same_option order.oco_group_id (some g),
          string_eq.beq_iff order.id k,
          c.linked k g,
        );
  }

  -- Removing an order, known or not, keeps the other cached orders members of their groups.
  pub remove_order-IsLinked :
      (order_id : String) (s : StateManager D) → IsLinked s → IsLinked (remove_order order_id s).1
  unfolding remove_order
  remove_order-IsLinked order_id s c = elim (Option-cases (lookup order_id s.orders)) [
    | inl n ↦ rw (n, remove_order) c
    | inr (o, e) ↦
        rw (e, remove_order)
          (record {
            linked = λ k g at. ground (
              arith,
              lookup-remove order_id k s.orders,
              members-leave_old order_id o.oco_group_id k g s.oco_groups,
              c.linked k g,
            );
          })
  ]

  -- A removed order is in no group that it was cached under.
  pub remove_order-leaves :
      (order_id g : String) (s : StateManager D)
      → group_of (lookup order_id s.orders) ≡ some g
      → member order_id (group_members (lookup g (remove_order order_id s).1.oco_groups)) ≡ false
  unfolding remove_order
  remove_order-leaves order_id g s at = elim (Option-cases (lookup order_id s.orders)) [
    | inl n ↦ ground arith
    | inr (o, e) ↦
        ground
          (arith, members-leave order_id g g order_id s.oco_groups, beq_refl g, beq_refl order_id)
  ]

  -- Joining a group keeps cached orders members of their groups.
  pub add_to_oco_group-IsLinked :
      (order_id group_id : String) (s : StateManager D)
      → IsLinked s
      → IsLinked (add_to_oco_group order_id group_id s)
  unfolding add_to_oco_group
  add_to_oco_group-IsLinked order_id group_id s c = record {
    linked = λ k g at. elim (Option-cases (lookup k s.orders)) [
      | inl n ↦ ground (arith, lookup-modify order_id k (with_group group_id) s.orders)
      | inr (o, e) ↦ ground (
        arith,
        lookup-modify order_id k (with_group group_id) s.orders,
        members-join k group_id g order_id s.oco_groups,
        string_eq.beq_iff group_id g,
        c.linked k g,
      )
    ];
  }

  abbrev pub symbol_of : Option (CachedPosition D) → Option String
  symbol_of none = none
  symbol_of (some p) = some p.symbol

  -- The symbol index leads to positions with that symbol.
  pub record IsIndexed (s : StateManager D) : Type 0 where
    pub indexed :
        (symbol id : String)
        → lookup symbol s.position_by_symbol ≡ some id
        → symbol_of (lookup id s.positions) ≡ some symbol

  -- Caching a position keeps the symbol index right, also when the position changes its symbol.
  pub upsert_position-IsIndexed :
      (p : Position D) (s : StateManager D) → IsIndexed s → IsIndexed (upsert_position p s)
  unfolding upsert_position
  upsert_position-IsIndexed p s c = record {
    indexed = λ symbol id at. elim (Option-cases (lookup p.id s.positions)) [
      | inl n ↦ ground (
        arith,
        lookup-insert p.symbol symbol p.id s.position_by_symbol,
        lookup-insert p.id id (cached_position p) s.positions,
        string_eq.beq_iff p.symbol symbol,
        string_eq.beq_iff p.id id,
        c.indexed symbol id,
      )
      | inr (old, e) ↦
          let index = release_symbol old.symbol p.id s.position_by_symbol in
          ground (
            arith,
            lookup-insert p.symbol symbol p.id s.position_by_symbol,
            lookup-insert p.symbol symbol p.id index,
            lookup-release_symbol old.symbol p.id symbol s.position_by_symbol,
            lookup-insert p.id id (cached_position p) s.positions,
            string_eq.beq_iff p.symbol symbol,
            string_eq.beq_iff p.id id,
            string_eq.beq_iff old.symbol p.symbol,
            string_eq.beq_iff old.symbol symbol,
            same_option (lookup old.symbol s.position_by_symbol) (some p.id),
            c.indexed symbol id,
          )
    ];
  }

  -- Removing a position, known or not, keeps the symbol index right.
  pub remove_position-IsIndexed :
      (id : String) (s : StateManager D) → IsIndexed s → IsIndexed (remove_position id s).1
  unfolding remove_position
  remove_position-IsIndexed id s c = elim (Option-cases (lookup id s.positions)) [
    | inl n ↦ rw (n, remove_position) c
    | inr (p, e) ↦
        rw (e, remove_position)
          (record {
            indexed = λ symbol other at. ground (
              arith,
              lookup-remove id other s.positions,
              lookup-release_symbol p.symbol id symbol s.position_by_symbol,
              string_eq.beq_iff id other,
              string_eq.beq_iff p.symbol symbol,
              same_option (lookup p.symbol s.position_by_symbol) (some id),
              c.indexed symbol other,
            );
          })
  ]

  upsert_orders-IsLinked :
      (os : List (Order D)) (s : StateManager D) → IsLinked s → IsLinked (upsert_orders os s)
  unfolding upsert_orders
  upsert_orders-IsLinked [] s c = c
  upsert_orders-IsLinked (o ∷ os) s c =
      upsert_orders-IsLinked os (upsert_order o s) (upsert_order-IsLinked o s c)

  upsert_positions-IsLinked :
      (ps : List (Position D)) (s : StateManager D) → IsLinked s → IsLinked (upsert_positions ps s)
  unfolding upsert_positions upsert_position
  upsert_positions-IsLinked [] s c = c
  upsert_positions-IsLinked (p ∷ ps) s c =
      upsert_positions-IsLinked ps (upsert_position p s) (record { linked = c.linked })

  upsert_positions-IsIndexed :
      (ps : List (Position D)) (s : StateManager D)
      → IsIndexed s
      → IsIndexed (upsert_positions ps s)
  unfolding upsert_positions
  upsert_positions-IsIndexed [] s c = c
  upsert_positions-IsIndexed (p ∷ ps) s c =
      upsert_positions-IsIndexed ps (upsert_position p s) (upsert_position-IsIndexed p s c)

  upsert_orders-IsIndexed :
      (os : List (Order D)) (s : StateManager D) → IsIndexed s → IsIndexed (upsert_orders os s)
  unfolding upsert_orders upsert_order
  upsert_orders-IsIndexed [] s c = c
  upsert_orders-IsIndexed (o ∷ os) s c =
      upsert_orders-IsIndexed os (upsert_order o s) (record { indexed = c.indexed })

  -- After a synchronisation with the provider, cached orders are members of their groups and the
  -- symbol index leads to positions of that symbol, whatever the state was before.
  pub sync_from_provider-links :
      (os : List (Order D)) (ps : List (Position D)) (s : StateManager D)
      → IsLinked (sync_from_provider os ps s) × IsIndexed (sync_from_provider os ps s)
  unfolding sync_from_provider new_state lookup
  sync_from_provider-links os ps s = (
    upsert_positions-IsLinked ps (upsert_orders os new_state)
        (upsert_orders-IsLinked os new_state (record { linked = λ k g at. ground arith })),
    upsert_positions-IsIndexed ps (upsert_orders os new_state)
        (upsert_orders-IsIndexed os new_state (record { indexed = λ k g at. ground arith })),
  )
