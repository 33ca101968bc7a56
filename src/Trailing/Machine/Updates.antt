-- ===== src/Trailing/Machine/Updates.antt =====
-- A price update (crates/core/src/trailing_stop/handler.rs) as moves of the state machine, where no
-- other task interferes.
use trading_gateway.Base.{
  ℕ, String, false, some, List, [], ◌∷◌, option_eq, string_eq, nat_eq, ◌≡◌, inl, inr, refl,
  Bool-cases, Option-cases,
}
use trading_gateway.Base.Map.{lookup}
use trading_gateway.Base.Decimal.{Decimal, eq_dec}
use trading_gateway.Models.Error.{Result-cases}
use trading_gateway.Models.{Side}
use trading_gateway.Trailing.Types.{
  TrailingEntryStatus, TrailingEntry, pending, tracking, active, triggered, cancelled, failed,
  price_source_unavailable, is_peak_improvement, should_adjust_stop, calculate_stop,
}
use trading_gateway.Trailing.Machine.{
  Mode, adjusts, Follows, Follows-refl, Follows-trans, behind_peak,
}
use trading_gateway.Trailing.Machine.Turns.{
  IsQuiet, update_entry-Follows, set_if-Evolves, peak_stays, peak_improves, place-Follows,
}
use trading_gateway.Trailing.Orders.{
  moved_status, modify_request, Surroundings, set_if, moved, verify_adjustment, adjustment_answer,
  adjust_stop_order,
}
use trading_gateway.Trailing.Prices.{
  perform, active_ids, update_one, active_levels, both_levels, after_adjustment, price_action,
  execute_price_update_action, on_price_update, update_each,
}
use trading_gateway.Trailing.Handler.{
  Handler, get_entry, is_circuit_breaker_open, record_stop_order_failure, update_entry,
}
use trading_gateway.Exit.Types.{Now}

module _ {D W : Type 0} ⦃dec : Decimal D⦄ ⦃mode : Mode⦄ (around : Surroundings D W)
    (quiet : IsQuiet around) where
  module _ (id : String) (h : Handler D) (w : W) (e : TrailingEntry D) (order_id : String)
      (peak level : D) (at : ℕ) (found : lookup id h.entries_by_placeholder ≡ some e)
      (status : e.status ≡ active order_id peak level at) where
    -- An order that the broker moved, at whatever price.
    moved-Follows :
        (now : Now) (new_id : String) (price : D)
        → Follows h (update_entry id (moved now new_id price) h)
    moved-Follows now new_id price = update_entry-Follows id (moved now new_id price) h e found (
        set_if-Evolves now (moved_status now new_id price e.status) e (
          inr (
            active new_id peak price now.utc,
            rw (status) refl,
            rw (status) (adjusts (peak_stays e.side peak)),
          )))

    levels-Follows :
        (now : Now) (new_peak new_level : D)
        → behind_peak e.side peak new_peak ≡ false
        → Follows h
            (update_entry id (λ e. set_if now (active_levels new_peak new_level e.status) e) h)
    levels-Follows now new_peak new_level better =
        update_entry-Follows id (λ e. set_if now (active_levels new_peak new_level e.status) e) h e
          found
          (set_if-Evolves now (active_levels new_peak new_level e.status) e (
            inr (
              active order_id new_peak new_level at,
              rw (status) refl,
              rw (status) (adjusts better),
            )))

    both-Follows :
        (now : Now) (new_peak new_level : D)
        → behind_peak e.side peak new_peak ≡ false
        → Follows h
            (update_entry id (λ e. set_if now (both_levels new_peak new_level e.status) e) h)
    both-Follows now new_peak new_level better =
        update_entry-Follows id (λ e. set_if now (both_levels new_peak new_level e.status) e) h e
          found
          (set_if-Evolves now (both_levels new_peak new_level e.status) e (
            inr (
              active order_id new_peak new_level at,
              rw (status) refl,
              rw (status) (adjusts better),
            )))

    adjust-Follows :
        (symbol : String) (side : Side) (quantity new_level new_peak : D)
        → behind_peak e.side peak new_peak ≡ false
        → Follows h
            (after_adjustment around id new_level new_peak
              (adjust_stop_order around id order_id symbol new_level side quantity (h, w))).0
    unfolding after_adjustment adjust_stop_order adjustment_answer verify_adjustment update_entry
        record_stop_order_failure
    adjust-Follows symbol side quantity new_level new_peak better =
        let step =
          around.executor.modify_stop_order (modify_request order_id symbol new_level side quantity)
            w in
        let asked = around.executor.get_stop_order_status order_id symbol step.1 in
        let now = around.clock asked.1 in
        let h1 = record_stop_order_failure (around.clock step.1).instant h in
        elim (Bool-cases (is_circuit_breaker_open h)) [
          | inl tripped ↦ rw (tripped) (levels-Follows (around.clock w) new_peak new_level better)
          | inr shut ↦ elim (Result-cases step.0) [
            | inl (order, s) ↦
                rw (shut, s, quiet step.1 h)
                  (moved-Follows (around.clock step.1) order.order_id order.stop_price)
            | inr (error, s) ↦ elim (Result-cases asked.0) [
              | inr (verify_err, s1) ↦
                  rw (shut, s, quiet step.1 h, s1, quiet asked.1 h1) (Follows-refl h)
              | inl (there, s1) ↦ elim (Bool-cases (eq_dec there.stop_price new_level)) [
                | inl equal ↦
                    rw (shut, s, quiet step.1 h, s1, quiet asked.1 h1, equal)
                      (moved-Follows now there.order_id there.stop_price)
                | inr apart ↦
                    rw (shut, s, quiet step.1 h, s1, quiet asked.1 h1, apart) (Follows-refl h)
              ]
            ]
          ]
        ]

    active_turn-Follows :
        (price : D) → Follows h (perform around id (price_action price e e.status) (h, w)).0
    unfolding price_action execute_price_update_action
    active_turn-Follows price = elim (Bool-cases (is_peak_improvement peak price e.side)) [
      | inr same ↦ rw (status, same) (Follows-refl h)
      | inl improved ↦ elim (Bool-cases (should_adjust_stop level (calculate_stop e price))) [
        | inl far ↦
            rw (status, improved, far)
              (adjust-Follows e.symbol e.side e.quantity (calculate_stop e price) price
                (peak_improves e.side peak price improved))
        | inr near ↦
            rw (status, improved, near)
              (both-Follows (around.clock w) price (calculate_stop e price)
                (peak_improves e.side peak price improved))
      ]
    ]

  tracking_turn-Follows :
      (price : D) (id : String) (h : Handler D) (w : W) (e : TrailingEntry D) (peak level : D)
      (at : ℕ)
      → lookup id h.entries_by_placeholder ≡ some e
      → e.status ≡ tracking peak level at
      → Follows h (perform around id (price_action price e e.status) (h, w)).0
  unfolding price_action execute_price_update_action
  tracking_turn-Follows price id h w e peak level at found status =
      elim (Bool-cases (is_peak_improvement peak price e.side)) [
        | inl improved ↦
            rw (status, improved)
              (place-Follows around quiet id e.symbol e.side e.quantity (calculate_stop e price)
                price h w e peak level at found status (peak_improves e.side peak price improved))
        | inr same ↦
            rw (status, same)
              (place-Follows around quiet id e.symbol e.side e.quantity level peak h w e peak level
                at found status (peak_stays e.side peak))
      ]

  turn-Follows :
      (price : D) (id : String) (h : Handler D) (w : W) (e : TrailingEntry D)
      (s : TrailingEntryStatus D)
      → lookup id h.entries_by_placeholder ≡ some e
      → e.status ≡ s
      → Follows h (perform around id (price_action price e e.status) (h, w)).0
  unfolding price_action
  turn-Follows price id h w e (tracking peak level at) found status =
      tracking_turn-Follows price id h w e peak level at found status
  turn-Follows price id h w e (active order_id peak level at) found status =
      active_turn-Follows id h w e order_id peak level at found status price
  turn-Follows price id h w e pending found status = rw (status) (Follows-refl h)
  turn-Follows price id h w e (triggered t p at) found status = rw (status) (Follows-refl h)
  turn-Follows price id h w e (cancelled at r) found status = rw (status) (Follows-refl h)
  turn-Follows price id h w e (failed r n at) found status = rw (status) (Follows-refl h)
  turn-Follows price id h w e (price_source_unavailable at r n u) found status =
      rw (status) (Follows-refl h)

  update_one-Follows :
      (price : D) (id : String) (h : Handler D) (w : W)
      → Follows h (update_one around price id (h, w)).0
  unfolding update_one get_entry
  update_one-Follows price id h w = elim (Option-cases (lookup id h.entries_by_placeholder)) [
    | inl missing ↦ rw (missing) (Follows-refl h)
    | inr (e, found) ↦ rw (found) (turn-Follows price id h w e e.status found refl)
  ]

  update_each-Follows :
      (price : D) (ids : List String) (h : Handler D) (w : W)
      → Follows h (update_each around price ids (h, w)).0
  unfolding update_each
  update_each-Follows price [] h w = Follows-refl h
  update_each-Follows price (id ∷ ids) h w =
      let s1 = update_one around price id (h, w) in
      Follows-trans h s1.0 (update_each around price ids s1).0 (update_one-Follows price id h w)
        (update_each-Follows price ids s1.0 s1.1)

  pub on_price_update-Follows :
      (symbol : String) (price : D) (h : Handler D) (w : W)
      → Follows h (on_price_update around symbol price (h, w)).0
  unfolding on_price_update
  on_price_update-Follows symbol price h w =
      update_each-Follows price (active_ids symbol h.entries_by_placeholder) h w
