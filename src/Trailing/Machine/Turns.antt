-- ===== src/Trailing/Machine/Turns.antt =====
-- The turn of one entry (crates/core/src/trailing_stop/handler.rs) as moves of the state machine,
-- where no other task interferes.
use trading_gateway.Exit.Placement.{or_default}
use trading_gateway.Base.{
  ℕ, String, true, false, Option, none, some, ◌==◌, option_eq, string_eq, nat_eq, beq_refl, ◌≡◌,
  ◌⊎◌, inl, inr, refl, arith, Bool-cases,
}
use trading_gateway.Base.Map.{lookup, lookup-modify}
use trading_gateway.Base.Decimal.{Decimal}
use trading_gateway.Models.Error.{Result-cases, display}
use trading_gateway.Models.{Side, buy, sell}
use trading_gateway.Trailing.Types.{
  TrailingEntryStatus, TrailingEntry, tracking, active, failed, set_status, current_peak,
  is_peak_improvement, calculate_stop,
}
use trading_gateway.Trailing.Machine.{
  Mode, Move, stays, then_moves, follows, places, refuses, Evolves, Continues, Follows,
  Follows-trans, behind_peak, Continues-refl, Evolves-refl,
}
use trading_gateway.Trailing.Stops.{lt_asym}
use trading_gateway.Trailing.Orders.{
  stop_request, Surroundings, made_active, set_if, placement_answer, place_initial_stop,
}
use trading_gateway.Trailing.Prices.{track_levels, handle_place_stop_action}
use trading_gateway.Trailing.Handler.{
  Handler, is_circuit_breaker_open, record_stop_order_failure, update_entry,
}
use trading_gateway.Exit.Types.{Now}

module _ {D : Type 0} ⦃dec : Decimal D⦄ where
  pub peak_stays : (side : Side) (peak : D) → behind_peak side peak peak ≡ false
  unfolding is_peak_improvement
  peak_stays sell peak = dec.lt_irrefl peak
  peak_stays buy peak = dec.lt_irrefl peak

  pub peak_improves :
      (side : Side) (peak price : D)
      → is_peak_improvement peak price side ≡ true
      → behind_peak side peak price ≡ false
  unfolding is_peak_improvement
  peak_improves sell peak price i = lt_asym peak price i
  peak_improves buy peak price i = lt_asym price peak i

  pub found_again :
      (id : String) (f : TrailingEntry D → TrailingEntry D) (h : Handler D) (e : TrailingEntry D)
      → lookup id h.entries_by_placeholder ≡ some e
      → lookup id (update_entry id f h).entries_by_placeholder ≡ some (f e)
  unfolding update_entry
  found_again id f h e found =
      ground (arith, found, lookup-modify id id f h.entries_by_placeholder, beq_refl id)

  module _ {W : Type 0} (around : Surroundings D W) where
    -- The surroundings of a handler that only one task uses.
    abbrev pub IsQuiet : Type 0
    IsQuiet = (w : W) (h : Handler D) → around.meanwhile w h ≡ h

module _ {D : Type 0} ⦃dec : Decimal D⦄ ⦃mode : Mode⦄ where
  at_key :
      (id k : String) (f : TrailingEntry D → TrailingEntry D) (h : Handler D) (e : TrailingEntry D)
      → lookup id h.entries_by_placeholder ≡ some e
      → Evolves e (f e)
      → Continues
          (lookup k h.entries_by_placeholder)
          (lookup k (update_entry id f h).entries_by_placeholder)
  unfolding update_entry
  at_key id k f h e found step = elim (Bool-cases (id == k)) [
    | inl same ↦
        let at_k : lookup k h.entries_by_placeholder ≡ some e =
          ground (arith, found, string_eq.beq_iff id k) in
        rw (lookup-modify id k f h.entries_by_placeholder, same, at_k) step
    | inr other ↦
        rw (lookup-modify id k f h.entries_by_placeholder, other)
          (Continues-refl (lookup k h.entries_by_placeholder))
  ]

  -- One entry evolves, the others stay.
  pub update_entry-Follows :
      (id : String) (f : TrailingEntry D → TrailingEntry D) (h : Handler D) (e : TrailingEntry D)
      → lookup id h.entries_by_placeholder ≡ some e
      → Evolves e (f e)
      → Follows h (update_entry id f h)
  update_entry-Follows id f h e found step k = at_key id k f h e found step

  pub set_status-Evolves :
      (now : Now) (s : TrailingEntryStatus D) (e : TrailingEntry D)
      → Move e.side e.status s
      → Evolves e (set_status now s e)
  unfolding set_status
  set_status-Evolves now s e m = (then_moves stays m, refl, refl, refl, refl)

  pub set_if-Evolves :
      (now : Now) (o : Option (TrailingEntryStatus D)) (e : TrailingEntry D)
      → (o ≡ none) ⊎ ((s : TrailingEntryStatus D) × (o ≡ some s) × Move e.side e.status s)
      → Evolves e (set_if now o e)
  set_if-Evolves now o e (inl none_set) = rw (none_set) (Evolves-refl e)
  set_if-Evolves now o e (inr (s, one, m)) = rw (one) (set_status-Evolves now s e m)

  -- The levels that a tracked entry takes over where no order was placed.
  pub track-Evolves :
      (now : Now) (new_peak new_level : D) (e : TrailingEntry D) (peak level : D) (at : ℕ)
      → e.status ≡ tracking peak level at
      → behind_peak e.side peak new_peak ≡ false
      → Evolves e (set_if now (track_levels new_peak new_level e.status) e)
  track-Evolves now new_peak new_level e peak level at status better =
      set_if-Evolves now (track_levels new_peak new_level e.status) e
        (inr (tracking new_peak new_level at, rw (status) refl, rw (status) (follows better)))

  module _ {W : Type 0} (around : Surroundings D W) where
    pub place-Follows :
        (quiet : IsQuiet around) (id symbol : String) (side : Side)
        (quantity stop_level new_peak : D) (h : Handler D) (w : W) (e : TrailingEntry D)
        (peak level : D) (at : ℕ)
        → lookup id h.entries_by_placeholder ≡ some e
        → e.status ≡ tracking peak level at
        → behind_peak e.side peak new_peak ≡ false
        → Follows h
            (handle_place_stop_action around id symbol side quantity stop_level new_peak (h, w)).0
    unfolding handle_place_stop_action place_initial_stop placement_answer update_entry set_status
        record_stop_order_failure
    place-Follows quiet id symbol side quantity stop_level new_peak h w e peak level at found status
          better =
        let step =
          around.executor.place_stop_order (stop_request symbol side quantity stop_level) w in
        elim (Bool-cases (is_circuit_breaker_open h)) [
          | inl tripped ↦ rw (tripped) (
              update_entry-Follows id
                (λ e.
                  set_if (around.clock w)
                    (track_levels new_peak (calculate_stop e new_peak) e.status) e)
                h e found
                (track-Evolves (around.clock w) new_peak (calculate_stop e new_peak) e peak level at
                  status better))
          | inr shut ↦ elim (Result-cases step.0) [
            | inl (order, s) ↦
                rw (shut, s, quiet step.1 h)
                  (update_entry-Follows id
                    (λ e.
                      made_active (around.clock step.1) order
                        (or_default stop_level (current_peak e.status)) e)
                    h e found
                    (set_status-Evolves (around.clock step.1)
                      (active order.order_id (or_default stop_level (current_peak e.status))
                        order.stop_price (around.clock step.1).utc)
                      e (rw (status) places)))
            | inr (error, s) ↦
                rw (shut, s, quiet step.1 h)
                  (let now = around.clock step.1 in
                    let h1 =
                      update_entry id (set_status now (failed (display error) 0 now.utc))
                        (record_stop_order_failure now.instant h) in
                    let e1 = set_status now (failed (display error) 0 now.utc) e in
                    Follows-trans h h1
                      (update_entry id
                        (λ e.
                          set_if now (track_levels new_peak (calculate_stop e new_peak) e.status) e)
                        h1)
                      (update_entry-Follows id (set_status now (failed (display error) 0 now.utc)) h
                        e found
                        (set_status-Evolves now (failed (display error) 0 now.utc) e
                          (rw (status) refuses)))
                      (update_entry-Follows id
                        (λ e.
                          set_if now (track_levels new_peak (calculate_stop e new_peak) e.status) e)
                        h1 e1
                        (found_again id (set_status now (failed (display error) 0 now.utc)) h e
                          found)
                        (Evolves-refl e1)))
          ]
        ]
