-- ===== src/Trailing/Adjustments.antt =====
-- Moving an active stop order at a price update (crates/core/src/trailing_stop/handler.rs).
use trading_gateway.Base.{
  ◌∙◌, ℕ, String, true, false, some, option_eq, string_eq, nat_eq, ◌≡◌, ◌⊎◌, inl, inr, refl, ap,
  Bool-cases,
}
use trading_gateway.Base.Map.{lookup}
use trading_gateway.Base.Decimal.{Decimal, eq_dec}
use trading_gateway.Models.Error.{GatewayError, GatewayResult, Result-cases, ok, err}
use trading_gateway.Models.{Side}
use trading_gateway.Trailing.Types.{
  TrailingEntry, active, set_status, is_peak_improvement, should_adjust_stop, calculate_stop,
}
use trading_gateway.Trailing.Surroundings.{PlacedStopOrder, StopOrderStatus}
use trading_gateway.Trailing.Machine.Turns.{IsQuiet, found_again}
use trading_gateway.Trailing.Orders.{
  modify_request, Surroundings, set_if, moved, verify_adjustment, adjustment_answer,
  adjust_stop_order,
}
use trading_gateway.Trailing.Prices.{
  update_one, active_levels, after_adjustment, price_action, execute_price_update_action,
}
use trading_gateway.Trailing.Handler.{
  Handler, get_entry, is_circuit_breaker_open, record_stop_order_failure, update_entry,
}

module _ {D : Type 0} ⦃dec : Decimal D⦄ where
  entry_after :
      (id : String) (f : TrailingEntry D → TrailingEntry D) (h : Handler D) (e e' : TrailingEntry D)
      → lookup id h.entries_by_placeholder ≡ some e
      → f e ≡ e'
      → lookup id (update_entry id f h).entries_by_placeholder ≡ some e'
  entry_after id f h e e' found same = found_again id f h e found ∙ ap some same

  module _ {W : Type 0} (around : Surroundings D W) (quiet : IsQuiet around) where
    module _ (id order_id symbol : String) (level : D) (side : Side) (quantity price : D)
        (h : Handler D) (w : W) where
      adjusting : Handler D × W
      adjusting =
          after_adjustment around id level price
            (adjust_stop_order around id order_id symbol level side quantity (h, w))

      tripped_is :
          is_circuit_breaker_open h ≡ true
          → adjusting ≡ (
            update_entry id (λ e. set_if (around.clock w) (active_levels price level e.status) e) h,
            w,
          )
      unfolding adjusting after_adjustment adjust_stop_order
      tripped_is tripped = rw (tripped) refl

      answer : GatewayResult (PlacedStopOrder D) × W
      answer =
          around.executor.modify_stop_order (modify_request order_id symbol level side quantity) w

      report : GatewayResult (StopOrderStatus D) × W
      unfolding answer
      report = around.executor.get_stop_order_status order_id symbol answer.1

      counted : Handler D
      unfolding answer
      counted = record_stop_order_failure (around.clock answer.1).instant h

      accepted_is :
          (order : PlacedStopOrder D)
          → is_circuit_breaker_open h ≡ false
          → answer.0 ≡ ok order
          → adjusting ≡ (
            update_entry id (moved (around.clock answer.1) order.order_id order.stop_price) h,
            answer.1,
          )
      unfolding adjusting answer after_adjustment adjust_stop_order adjustment_answer
      accepted_is order shut s = rw (shut, s, quiet answer.1 h) refl

      verified_is :
          (e : GatewayError) (there : StopOrderStatus D)
          → is_circuit_breaker_open h ≡ false
          → answer.0 ≡ err e
          → report.0 ≡ ok there
          → eq_dec there.stop_price level ≡ true
          → adjusting ≡ (
            update_entry id (moved (around.clock report.1) there.order_id there.stop_price) counted,
            report.1,
          )
      unfolding adjusting answer report counted after_adjustment adjust_stop_order adjustment_answer
          verify_adjustment
      verified_is e there shut s s1 equal =
          rw (shut, s, quiet answer.1 h, s1, quiet report.1 counted, equal) refl

      refused_is :
          (e : GatewayError)
          → is_circuit_breaker_open h ≡ false
          → answer.0 ≡ err e
          → ((f : GatewayError) × (report.0 ≡ err f))
            ⊎ ((there : StopOrderStatus D) × (report.0 ≡ ok there)
                × (eq_dec there.stop_price level ≡ false))
          → adjusting ≡ (counted, report.1)
      unfolding adjusting answer report counted after_adjustment adjust_stop_order adjustment_answer
          verify_adjustment
      refused_is e shut s (inl (f, s1)) =
          rw (shut, s, quiet answer.1 h, s1, quiet report.1 counted) refl
      refused_is e shut s (inr (there, s1, apart)) =
          rw (shut, s, quiet answer.1 h, s1, quiet report.1 counted, apart) refl

    turn_is :
        (price : D) (id : String) (h : Handler D) (w : W) (e : TrailingEntry D) (order_id : String)
        (peak level : D) (at : ℕ)
        → lookup id h.entries_by_placeholder ≡ some e
        → e.status ≡ active order_id peak level at
        → is_peak_improvement peak price e.side ≡ true
        → should_adjust_stop level (calculate_stop e price) ≡ true
        → update_one around price id (h, w)
          ≡ adjusting id order_id e.symbol (calculate_stop e price) e.side e.quantity price h w
    unfolding update_one get_entry price_action execute_price_update_action adjusting
    turn_is price id h w e order_id peak level at found status improved far =
        rw (update_one, found) (simp (status, improved, far) refl)

    -- The outcomes of a price update for an active entry whose stop should move.
    abbrev pub AdjustOutcome :
        (price : D) (id : String) (h : Handler D) (w : W) (e : TrailingEntry D) (order_id : String)
        (peak level : D) (at : ℕ)
        → Type 0
    AdjustOutcome price id h w e order_id peak level at =
        let new_level = calculate_stop e price in
        let step =
          around.executor.modify_stop_order
            (modify_request order_id e.symbol new_level e.side e.quantity) w in
        let asked = around.executor.get_stop_order_status order_id e.symbol step.1 in
        let (h', w') = update_one around price id (h, w) in
        let e' = lookup id h'.entries_by_placeholder in
        let now = around.clock step.1 in
        let later = around.clock asked.1 in
        ((is_circuit_breaker_open h ≡ true)
          × (w' ≡ w)
          × (e' ≡ some (set_status (around.clock w) (active order_id price new_level at) e)))
        ⊎ (((is_circuit_breaker_open h ≡ false)
              × ((order : PlacedStopOrder D) × (step.0 ≡ ok order)
                  × (w' ≡ step.1)
                  × (e'
                      ≡ some (
                          set_status now (active order.order_id peak order.stop_price now.utc) e))))
            ⊎ (((is_circuit_breaker_open h ≡ false)
                  × ((error : GatewayError) × (step.0 ≡ err error))
                  × (w' ≡ asked.1)
                  × ((there : StopOrderStatus D) × (asked.0 ≡ ok there)
                      × (eq_dec there.stop_price new_level ≡ true)
                      × (e'
                          ≡ some (
                              set_status later
                                (active there.order_id peak there.stop_price later.utc) e))))
                ⊎ ((is_circuit_breaker_open h ≡ false)
                    × ((error : GatewayError) × (step.0 ≡ err error))
                    × (((verify_err : GatewayError) × (asked.0 ≡ err verify_err))
                        ⊎ ((there : StopOrderStatus D) × (asked.0 ≡ ok there)
                            × (eq_dec there.stop_price new_level ≡ false)))
                    × (w' ≡ asked.1)
                    × (e' ≡ some e)
                    × (h'.circuit_breaker
                        ≡ (record_stop_order_failure now.instant h).circuit_breaker))))

    -- What a price update does with an active entry whose stop should move, provided that no other
    -- task changes the handler meanwhile. With an open breaker the broker is not called, and yet the
    -- new peak and the new stop level are recorded. Where the broker accepts the change, or refuses
    -- it and then reports the new price, its order id and price are recorded under the peak that was
    -- there before. Where it refuses and reports another price, or cannot report, the entry stays, and
    -- the failure is counted.
    pub update_one-adjusts :
        (price : D) (id : String) (h : Handler D) (w : W) (e : TrailingEntry D) (order_id : String)
        (peak level : D) (at : ℕ)
        → lookup id h.entries_by_placeholder ≡ some e
        → e.status ≡ active order_id peak level at
        → is_peak_improvement peak price e.side ≡ true
        → should_adjust_stop level (calculate_stop e price) ≡ true
        → AdjustOutcome price id h w e order_id peak level at
    unfolding answer report counted update_entry record_stop_order_failure
    update_one-adjusts price id h w e order_id peak level at found status improved far =
        let new_level = calculate_stop e price in
        let step = answer id order_id e.symbol new_level e.side e.quantity price h w in
        let asked = report id order_id e.symbol new_level e.side e.quantity price h w in
        let h1 = counted id order_id e.symbol new_level e.side e.quantity price h w in
        let turn = turn_is price id h w e order_id peak level at found status improved far in
        let now = around.clock step.1 in
        let later = around.clock asked.1 in
        elim (Bool-cases (is_circuit_breaker_open h)) [
          | inl tripped ↦
              let is =
                tripped_is id order_id e.symbol new_level e.side e.quantity price h w tripped in
              inl (
                rw (turn, is)
                  (
                    tripped,
                    refl,
                    entry_after id
                        (λ e. set_if (around.clock w) (active_levels price new_level e.status) e) h
                        e (set_status (around.clock w) (active order_id price new_level at) e) found
                        (rw (status) refl),
                  ))
          | inr shut ↦ elim (Result-cases step.0) [
            | inl (order, s) ↦
                let is =
                  accepted_is id order_id e.symbol new_level e.side e.quantity price h w order shut
                    s in
                inr (
                  inl (
                    rw (turn, is)
                      (
                        shut,
                        (
                          order,
                          s,
                          refl,
                          entry_after id (moved now order.order_id order.stop_price) h e
                              (set_status now (active order.order_id peak order.stop_price now.utc)
                                e)
                              found (rw (status) refl),
                        ),
                      )))
            | inr (error, s) ↦ elim (Result-cases asked.0) [
              | inr (verify_err, s1) ↦
                  let is =
                    refused_is id order_id e.symbol new_level e.side e.quantity price h w error shut
                      s (inl (verify_err, s1)) in
                  inr (
                    inr (
                      inr (
                        rw (turn, is) (shut, (error, s), inl (verify_err, s1), refl, found, refl))))
              | inl (there, s1) ↦ elim (Bool-cases (eq_dec there.stop_price new_level)) [
                | inl equal ↦
                    let is =
                      verified_is id order_id e.symbol new_level e.side e.quantity price h w error
                        there shut s s1 equal in
                    inr (
                      inr (
                        inl (
                          rw (turn, is)
                            (
                              shut,
                              (error, s),
                              refl,
                              (
                                there,
                                s1,
                                equal,
                                entry_after id (moved later there.order_id there.stop_price) h1 e
                                    (set_status later
                                      (active there.order_id peak there.stop_price later.utc) e)
                                    found (rw (status) refl),
                              ),
                            ))))
                | inr apart ↦
                    let is =
                      refused_is id order_id e.symbol new_level e.side e.quantity price h w error
                        shut s (inr (there, s1, apart)) in
                    inr (
                      inr (
                        inr (
                          rw (turn, is)
                            (shut, (error, s), inr (there, s1, apart), refl, found, refl))))
              ]
            ]
          ]
        ]
