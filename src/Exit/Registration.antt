-- ===== src/Exit/Registration.antt =====
-- crates/core/src/exit_management/handler.rs: registering the exits of an order, and the backup
-- that is registered before a native OCO order is tried.
use Prim.Native.String.{compare}
use text.Mathlib.Text.{is_lt}
use trading_gateway.Base.{
  String, ◌⧺◌, Bool, true, false, Option, none, some, List, [], ◌∷◌, ◌++◌, length, leb, is_empty,
  string_eq, if◌then◌else◌,
}
use trading_gateway.Base.Decimal.{Decimal, zero_d, le_dec}
use trading_gateway.Base.Map.{Map, remove, modify}
use trading_gateway.Models.Text.{show_nat}
use trading_gateway.Models.Error.{
  GatewayResult, ok, err, internal, invalid_request, order_not_found,
}
use trading_gateway.Models.Order.{OrderRequest}
use trading_gateway.Exit.Types.{
  Now, ExitLegType, stop_loss, take_profit, ExitEntry, new_entry, set_status, opposite_side,
  cancelled, oco_succeeded,
}
use trading_gateway.Exit.Index.{placeholders, extend_secondary_index}
use trading_gateway.Exit.Handler.{Handler, insert_entry}

pub record RegisteredExitLegs : Type 0 where
  pub stop_loss_id : Option String
  pub take_profit_id : Option String

abbrev pub empty_legs : RegisteredExitLegs
empty_legs = record { stop_loss_id = none; take_profit_id = none }

abbrev pub to_list : Option String → List String
to_list none = []
to_list (some id) = id ∷ []

-- `ExitBackupRegistration`
pub record Backup : Type 0 where
  pub id : String
  pub placeholder_ids : List String

module _ {D : Type 0} ⦃dec : Decimal D⦄ where
  unfoldable pub validate_price : D → String → GatewayResult (Unit {0})
  validate_price price field_name =
      if le_dec price zero_d
      then err (
          invalid_request (field_name ⧺ (" must be a positive number, got " ⧺ dec.show price)) none)
      else ok tt

  -- The validation of a leg that is asked for.
  abbrev pub check_leg : Option D → String → GatewayResult (Unit {0})
  check_leg none field_name = ok tt
  check_leg (some price) field_name = validate_price price field_name

  -- The entry that `register` makes for one leg.
  unfoldable pub leg_entry :
      Now → String → OrderRequest D → Handler D → ExitLegType → D → ExitEntry D
  unfolding new_entry opposite_side
  leg_entry now primary_order_id order h leg price = new_entry now (record {
    primary_order_id = primary_order_id;
    parent_client_order_id = order.client_order_id;
    order_type = leg;
    symbol = order.symbol;
    side = opposite_side order.side;
    trigger_price = price;
    limit_price = none;
    quantity = order.quantity;
    platform = h.platform;
  })

  -- Registers one leg, if it is asked for.
  unfoldable pub register_leg :
      Now → String → OrderRequest D → ExitLegType → Option D → Handler D → Handler D × Option String
  unfolding leg_entry insert_entry
  register_leg now primary_order_id order leg none h = (h, none)
  register_leg now primary_order_id order leg (some price) h =
      let entry = leg_entry now primary_order_id order h leg price in
      (insert_entry entry h, some entry.placeholder_id)

  abbrev pub with_sibling : String → ExitEntry D → ExitEntry D
  with_sibling id e = record e { sibling_id = some id }

  -- Links the two legs, the smaller id first.
  unfoldable pub link_siblings : String → String → Handler D → Handler D
  link_siblings sl_id tp_id h =
      let first_id = if is_lt (compare sl_id tp_id) then sl_id else tp_id in
      let second_id = if is_lt (compare sl_id tp_id) then tp_id else sl_id in
      record h {
        pending_by_placeholder =
            modify second_id (with_sibling first_id)
              (modify first_id (with_sibling second_id) h.pending_by_placeholder);
      }

  abbrev pub link_both : Option String → Option String → Handler D → Handler D
  link_both (some sl_id) (some tp_id) h = link_siblings sl_id tp_id h
  link_both _ _ h = h

  -- The part of `register` behind its guards.
  unfoldable pub register_legs :
      Now → String → OrderRequest D → Handler D → RegisteredExitLegs × Handler D
  unfolding register_leg link_siblings
  register_legs now primary_order_id order h =
      let (h1, sl_id) = register_leg now primary_order_id order stop_loss order.stop_loss h in
      let (h2, tp_id) = register_leg now primary_order_id order take_profit order.take_profit h1 in
      (record { stop_loss_id = sl_id; take_profit_id = tp_id }, link_both sl_id tp_id h2)

  abbrev pub wants_exits : Option D → Option D → Bool
  wants_exits none none = false
  wants_exits _ _ = true

  -- `register`
  unfoldable pub register :
      Now → String → OrderRequest D → Handler D → GatewayResult RegisteredExitLegs × Handler D
  unfolding validate_price register_legs
  register now primary_order_id order h =
      if leb h.config.max_pending_entries (length h.pending_by_placeholder)
      then (
        err (
            internal (
              "Resource exhausted: pending_exit_entries (limit: "
              ⧺ (show_nat h.config.max_pending_entries ⧺ ")"))),
        h,
      )
      else if wants_exits order.stop_loss order.take_profit
      then elim (check_leg order.stop_loss "stop_loss") [
        | err e ↦ (err e, h)
        | ok _ ↦ elim (check_leg order.take_profit "take_profit") [
          | err e ↦ (err e, h)
          | ok _ ↦ let (legs, h') = register_legs now primary_order_id order h in (ok legs, h')
        ]
      ]
      else (ok empty_legs, h)

  -- `register_preemptive`; the random part of the backup's id is an argument.
  unfoldable pub register_preemptive :
      Now → String → OrderRequest D → Handler D → GatewayResult Backup × Handler D
  unfolding register
  register_preemptive now uuid order h =
      let backup_id = "backup:" ⧺ uuid in
      let (result, h') = register now backup_id order h in
      elim result [
        | err e ↦ (err e, h')
        | ok legs ↦ (
          ok (record {
            id = backup_id;
            placeholder_ids = to_list legs.stop_loss_id ++ to_list legs.take_profit_id;
          }),
          h',
        )
      ]

module _ {D : Type 0} where
  abbrev pub with_primary : String → ExitEntry D → ExitEntry D
  with_primary id e = record e { primary_order_id = id }

  -- The loop of `activate_backup`.
  unfoldable pub move_entries :
      String → List String → Map String (ExitEntry D) → Map String (ExitEntry D)
  move_entries actual_primary_id [] m = m
  move_entries actual_primary_id (id ∷ ids) m =
      move_entries actual_primary_id ids (modify id (with_primary actual_primary_id) m)

  unfoldable pub activate_backup :
      String → String → Handler D → GatewayResult (Unit {0}) × Handler D
  unfolding placeholders move_entries extend_secondary_index
  activate_backup backup_id actual_primary_id h =
      let placeholder_ids = placeholders backup_id h.pending_by_primary in
      if is_empty placeholder_ids then (err (order_not_found backup_id), h) else (
        ok tt,
        record h {
          pending_by_placeholder =
              move_entries actual_primary_id placeholder_ids h.pending_by_placeholder;
          pending_by_primary =
              extend_secondary_index actual_primary_id placeholder_ids
                (remove backup_id h.pending_by_primary);
        },
      )

  -- The loop of `cancel_backup`: the status is set before the entry is removed.
  unfoldable pub drop_entries :
      Now → List String → Map String (ExitEntry D) → Map String (ExitEntry D)
  unfolding set_status
  drop_entries now [] m = m
  drop_entries now (id ∷ ids) m =
      drop_entries now ids
        (remove id (modify id (set_status now (cancelled now.utc oco_succeeded)) m))

  unfoldable pub cancel_backup : Now → String → Handler D → GatewayResult (Unit {0}) × Handler D
  unfolding placeholders drop_entries
  cancel_backup now backup_id h =
      let placeholder_ids = placeholders backup_id h.pending_by_primary in
      if is_empty placeholder_ids then (err (order_not_found backup_id), h) else (
        ok tt,
        record h {
          pending_by_placeholder = drop_entries now placeholder_ids h.pending_by_placeholder;
          pending_by_primary = remove backup_id h.pending_by_primary;
        },
      )
