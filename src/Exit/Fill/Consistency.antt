-- ===== src/Exit/Fill/Consistency.antt =====
-- The processing of one entry's fill, and the maps of the handler
-- (crates/core/src/exit_management/fill_handler.rs).
use trading_gateway.Base.{
  String, Option, none, some, List, [], ◌∷◌, string_eq, nat_eq, ◌≡◌, inl, inr, refl, arith,
  Bool-cases, Option-cases,
}
use trading_gateway.Base.Map.{lookup}
use trading_gateway.Base.Decimal.{Decimal, lt_dec}
use trading_gateway.Exit.Types.{
  Now, leg_eq, ExitEntry, ExitEntryStatus, set_status, is_pending, place_failed, wash_trade,
  insufficient_balance,
}
use trading_gateway.Exit.Handler.{Handler}
use trading_gateway.Exit.Placement.{Market, Placement, submitted, refused}
use trading_gateway.Exit.Invariant.{IsConsistent, modify-IsConsistent}
use trading_gateway.Exit.Breaker
use trading_gateway.Exit.Fill.{
  process_entry_fill, attempt_fill, place_exit, entry_verdict, settle, quantity_to_place,
  count_failure, update_last_attempted_fill_qty, record_position_id, update_entry_to_failed,
  update_entry_to_placed, update_entry_partial_fill, handle_successful_placement,
  handle_placement_error, with_attempt, with_position, with_partial, with_placed, with_failure,
  update_entry, placed_order,
}
use trading_gateway.Exit.FillEvents.{FillEvent, process_entries}

module _ {D : Type 0} ⦃dec : Decimal D⦄ where
  -- Consistency reads only the two maps of entries.
  pub same_maps :
      (h h' : Handler D)
      → h'.pending_by_placeholder ≡ h.pending_by_placeholder
      → h'.pending_by_primary ≡ h.pending_by_primary
      → IsConsistent h
      → IsConsistent h'
  same_maps h h' p q c = record {
    keyed = λ k e at. c.keyed k e (cc);
    indexed = λ k e at waiting. ground (arith, c.indexed k e);
  }

  settle-IsConsistent :
      (now : Now) (id : String) (e : ExitEntry D) (partial : Option (D × D)) (h : Handler D)
      (p : Placement D)
      → IsConsistent h
      → IsConsistent (settle now id e partial h p).1
  unfolding handle_successful_placement handle_placement_error update_entry_to_placed is_pending
      update_entry_partial_fill update_entry_to_failed set_status
  settle-IsConsistent now id e none h (submitted order n) c =
      modify-IsConsistent id (with_placed now (placed_order now e order)) h
        (λ x. (refl, refl, λ b. ground arith)) c
  settle-IsConsistent now id e (some f) h (submitted order n) c =
      modify-IsConsistent id (with_partial now (placed_order now e order) f.0 f.1) h
        (λ x. (refl, refl, λ b. ground arith)) c
  settle-IsConsistent now id e partial h (refused (insufficient_balance m a b) n) c = c
  settle-IsConsistent now id e partial h (refused (wash_trade m) n) c = c
  settle-IsConsistent now id e partial h (refused (place_failed m k category) n) c =
      modify-IsConsistent id (with_failure now m n) (count_failure now category h)
        (λ x. (refl, refl, λ b. ground arith))
        (same_maps h (count_failure now category h) (ground arith) (ground arith) c)

  module _ {W : Type 0} (market : Market D W) (describe : ExitEntryStatus D → String) where
    place_exit-IsConsistent :
        (id : String) (e : ExitEntry D) (quantity filled total : D) (position_id : Option String)
        (h : Handler D) (w : W)
        → IsConsistent h
        → IsConsistent (place_exit market id e quantity filled total position_id h w).1.0
    unfolding place_exit record_position_id is_pending
    place_exit-IsConsistent id e quantity filled total none h w c =
        settle-IsConsistent _ id e _ h _ c
    place_exit-IsConsistent id e quantity filled total (some position) h w c =
        settle-IsConsistent _ id e _ _ _
          (modify-IsConsistent id (with_position position) h (λ x. (refl, refl, λ b. b)) c)

    process_entry_fill-IsConsistent :
        (id : String) (filled total : D) (position_qty : Option D) (position_id : Option String)
        (h : Handler D) (w : W)
        → IsConsistent h
        → IsConsistent
            (process_entry_fill market describe id filled total position_qty position_id h w).1.0
    unfolding process_entry_fill attempt_fill update_last_attempted_fill_qty is_pending
    process_entry_fill-IsConsistent id filled total pq pid h w c =
        elim (Option-cases (lookup id h.pending_by_placeholder)) [
          | inl n ↦ rw (n, process_entry_fill) c
          | inr (e, s) ↦ elim (Option-cases (entry_verdict describe id filled e)) [
            | inr (v, t) ↦ rw (s, t, process_entry_fill) c
            | inl t ↦
                let h1 = update_entry id (with_attempt (market.clock w) filled) h in
                let quantity = quantity_to_place e filled total pq in
                let c1 : IsConsistent h1 =
                  modify-IsConsistent id (with_attempt (market.clock w) filled) h
                    (λ x. (refl, refl, λ b. b)) c in
                elim (Bool-cases (lt_dec quantity h.config.min_exit_order_qty)) [
                  | inl small ↦ rw (s, t, small, process_entry_fill, attempt_fill) c1
                  | inr big ↦ elim (Bool-cases (Breaker.is_open h1.circuit_breaker)) [
                    | inl halted ↦ rw (s, t, big, halted, process_entry_fill, attempt_fill) c1
                    | inr running ↦
                        rw (s, t, big, running, process_entry_fill, attempt_fill)
                          (place_exit-IsConsistent id e quantity filled total pid h1 w c1)
                  ]
                ]
          ]
        ]

    pub process_entries-IsConsistent :
        (ids : List String) (fill : FillEvent D) (h : Handler D) (w : W)
        → IsConsistent h
        → IsConsistent (process_entries market describe ids fill h w).1.0
    unfolding process_entries
    process_entries-IsConsistent [] fill h w c = c
    process_entries-IsConsistent (id ∷ ids) fill h w c =
        let s =
          (process_entry_fill market describe id fill.filled_qty fill.total_qty fill.position_qty
            fill.position_id h w).1 in
        process_entries-IsConsistent ids fill s.0 s.1 (
          process_entry_fill-IsConsistent id fill.filled_qty fill.total_qty fill.position_qty
            fill.position_id h w c)
