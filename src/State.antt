-- ===== src/State.antt =====
-- crates/core/src/state/mod.rs: the caches of orders, positions and OCO groups that exit management
-- reads. Sets of ids are lists; every access to a map is a step of its own.
pub mod Links
pub mod Reachable
use trading_gateway.Base.{
  String, Bool, true, false, not, Option, none, some, List, [], ◌∷◌, ◌++◌, retain, is_empty, ◌==◌,
  option_eq, string_eq, nat_eq, if◌then◌else◌,
}
use trading_gateway.Base.Map.{Map, lookup, insert, remove, modify, contains_key}
use trading_gateway.Models.Order.{Order}
use trading_gateway.Exit.Types.{leg_eq}
use trading_gateway.Exit.Index.{member}
use trading_gateway.Exit.Index.{member}
use trading_gateway.Models.{Side, OrderStatus, PositionSide}
use trading_gateway.Models.Position.{Position}

pub record CachedOrder (D : Type 0) : Type 0 where
  pub order_id : String
  pub symbol : String
  pub side : Side
  pub quantity : D
  pub filled_quantity : D
  pub status : OrderStatus
  pub position_id : Option String
  pub oco_group_id : Option String

pub record CachedPosition (D : Type 0) : Type 0 where
  pub position_id : String
  pub symbol : String
  pub side : PositionSide
  pub quantity : D

pub record OcoFillRecord (D : Type 0) : Type 0 where
  pub first_filled_order_id : String
  pub first_filled_qty : D
  pub symbol : String
  pub side : Side

pub record StateManager (D : Type 0) : Type 0 where
  pub orders : Map String (CachedOrder D)
  pub positions : Map String (CachedPosition D)
  pub position_by_symbol : Map String String
  pub oco_groups : Map String (List String)
  pub oco_fills : Map String (OcoFillRecord D)

-- `HashSet::insert`
unfoldable pub add_id : String → List String → List String
add_id id ids = if member id ids then ids else ids ++ id ∷ []

-- `HashSet::remove`
unfoldable pub drop_id : String → List String → List String
drop_id id ids = retain (λ x. not (x == id)) ids

abbrev pub group_members : Option (List String) → List String
group_members none = []
group_members (some ids) = ids

-- Adds an order to a group, `entry(group).or_default().insert(order)`.
unfoldable pub join_group : String → String → Map String (List String) → Map String (List String)
unfolding add_id
join_group group_id order_id groups =
    insert group_id (add_id order_id (group_members (lookup group_id groups))) groups

-- Takes an order out of a group, and removes the group when it is empty.
unfoldable pub leave_group : String → String → Map String (List String) → Map String (List String)
unfolding drop_id
leave_group group_id order_id groups = elim (lookup group_id groups) [
  | none ↦ groups
  | some ids ↦
      let left = drop_id order_id ids in
      if is_empty left then remove group_id groups else insert group_id left groups
]

abbrev pub leave_old : String → Option String → Map String (List String) → Map String (List String)
leave_old order_id none groups = groups
leave_old order_id (some group_id) groups = leave_group group_id order_id groups

abbrev pub join_new : String → Option String → Map String (List String) → Map String (List String)
join_new order_id none groups = groups
join_new order_id (some group_id) groups = join_group group_id order_id groups

abbrev pub siblings : String → Option (List String) → List String
siblings exclude none = []
siblings exclude (some ids) = retain (λ x. not (x == exclude)) ids

-- Removes the symbol of a position from the index, if the index leads to that position.
unfoldable pub release_symbol : String → String → Map String String → Map String String
release_symbol symbol position_id index =
    if lookup symbol index == some position_id then remove symbol index else index

module _ {D : Type 0} where
  unfoldable pub new_state : StateManager D
  new_state = record {
    orders = [];
    positions = [];
    position_by_symbol = [];
    oco_groups = [];
    oco_fills = [];
  }

  abbrev pub cached_order : Order D → CachedOrder D
  cached_order order = record {
    order_id = order.id;
    symbol = order.symbol;
    side = order.side;
    quantity = order.quantity;
    filled_quantity = order.filled_quantity;
    status = order.status;
    position_id = order.position_id;
    oco_group_id = order.oco_group_id;
  }

  -- The clean-up of the group that an order was cached under before.
  abbrev pub leave_stale :
      Order D → Option (CachedOrder D) → Map String (List String) → Map String (List String)
  leave_stale order none groups = groups
  leave_stale order (some old) groups =
      if old.oco_group_id == order.oco_group_id
      then groups
      else leave_old order.id old.oco_group_id groups

  unfoldable pub upsert_order : Order D → StateManager D → StateManager D
  unfolding join_group leave_group
  upsert_order order s = record s {
    orders = insert order.id (cached_order order) s.orders;
    oco_groups =
        join_new order.id order.oco_group_id
          (leave_stale order (lookup order.id s.orders) s.oco_groups);
  }

  abbrev pub with_fill : D → OrderStatus → CachedOrder D → CachedOrder D
  with_fill filled_qty status o = record o { filled_quantity = filled_qty; status = status }

  unfoldable pub update_order_fill :
      String → D → OrderStatus → StateManager D → Bool × StateManager D
  update_order_fill order_id filled_qty status s = (
    contains_key order_id s.orders,
    record s { orders = modify order_id (with_fill filled_qty status) s.orders },
  )

  unfoldable pub remove_order : String → StateManager D → Bool × StateManager D
  unfolding leave_group
  remove_order order_id s = elim (lookup order_id s.orders) [
    | none ↦ (false, s)
    | some o ↦ (
      true,
      record s {
        orders = remove order_id s.orders;
        oco_groups = leave_old order_id o.oco_group_id s.oco_groups;
      },
    )
  ]

  abbrev pub cached_position : Position D → CachedPosition D
  cached_position p = record {
    position_id = p.id;
    symbol = p.symbol;
    side = p.side;
    quantity = p.quantity;
  }

  abbrev pub release_old :
      Position D → Option (CachedPosition D) → Map String String → Map String String
  release_old p none index = index
  release_old p (some old) index =
      if old.symbol == p.symbol then index else release_symbol old.symbol p.id index

  unfoldable pub upsert_position : Position D → StateManager D → StateManager D
  unfolding release_symbol
  upsert_position p s = record s {
    positions = insert p.id (cached_position p) s.positions;
    position_by_symbol =
        insert p.symbol p.id (release_old p (lookup p.id s.positions) s.position_by_symbol);
  }

  unfoldable pub remove_position : String → StateManager D → Bool × StateManager D
  unfolding release_symbol
  remove_position position_id s = elim (lookup position_id s.positions) [
    | none ↦ (false, s)
    | some p ↦ (
      true,
      record s {
        positions = remove position_id s.positions;
        position_by_symbol = release_symbol p.symbol position_id s.position_by_symbol;
      },
    )
  ]

  abbrev pub position_at : Option String → StateManager D → Option (CachedPosition D)
  position_at none s = none
  position_at (some id) s = lookup id s.positions

  unfoldable pub get_position_by_symbol : String → StateManager D → Option (CachedPosition D)
  get_position_by_symbol symbol s = position_at (lookup symbol s.position_by_symbol) s

  abbrev pub with_group : String → CachedOrder D → CachedOrder D
  with_group group_id o = record o { oco_group_id = some group_id }

  unfoldable pub add_to_oco_group : String → String → StateManager D → StateManager D
  unfolding join_group
  add_to_oco_group order_id group_id s = record s {
    oco_groups = join_group group_id order_id s.oco_groups;
    orders = modify order_id (with_group group_id) s.orders;
  }

  unfoldable pub get_oco_siblings : String → String → StateManager D → List String
  get_oco_siblings group_id exclude_order_id s =
      siblings exclude_order_id (lookup group_id s.oco_groups)

  -- `None` stands for the first fill of the group, and else the record of the first fill is returned.
  unfoldable pub record_oco_fill :
      String → OcoFillRecord D → StateManager D → Option (OcoFillRecord D) × StateManager D
  record_oco_fill group_id new_record s = elim (lookup group_id s.oco_fills) [
    | some existing ↦ (some existing, s)
    | none ↦ (none, record s { oco_fills = insert group_id new_record s.oco_fills })
  ]

  unfoldable pub clear_oco_fill : String → StateManager D → StateManager D
  clear_oco_fill group_id s = record s { oco_fills = remove group_id s.oco_fills }

  unfoldable pub upsert_orders : List (Order D) → StateManager D → StateManager D
  unfolding upsert_order
  upsert_orders [] s = s
  upsert_orders (o ∷ os) s = upsert_orders os (upsert_order o s)

  unfoldable pub upsert_positions : List (Position D) → StateManager D → StateManager D
  unfolding upsert_position
  upsert_positions [] s = s
  upsert_positions (p ∷ ps) s = upsert_positions ps (upsert_position p s)

  -- All five maps are cleared first, so that nothing of the old state is left.
  unfoldable pub sync_from_provider :
      List (Order D) → List (Position D) → StateManager D → StateManager D
  unfolding upsert_orders upsert_positions new_state
  sync_from_provider orders positions s =
      upsert_positions positions (upsert_orders orders new_state)
