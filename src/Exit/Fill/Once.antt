-- ===== src/Exit/Fill/Once.antt =====
-- Repeated fills in `process_entry_fill` of crates/core/src/exit_management/fill_handler.rs, and the
-- quantity that an entry was last attempted for.
use trading_gateway.Base.{
  String, Bool, true, false, ◌||◌, Option, none, some, string_eq, nat_eq, beq_refl, ◌≡◌, inl, inr,
  refl, arith, Option-cases,
}
use trading_gateway.Base.Map.{lookup, lookup-modify}
use trading_gateway.Base.Decimal.{Decimal, le_dec}
use trading_gateway.Exit.Types.{
  Now, leg_eq, ExitEntry, ExitEntryStatus, set_status, ErrorCategory, place_failed, wash_trade,
  insufficient_balance,
}
use trading_gateway.Exit.Handler.{Handler}
use trading_gateway.Exit.Placement.{Market, Placement, submitted, refused}
use trading_gateway.Exit.Fill.{
  count_failure, process_entry_fill, attempt_fill, place_exit, entry_verdict, attempted,
  terminal_status, settle, quantity_to_place, update_last_attempted_fill_qty, record_position_id,
  update_entry_to_failed, update_entry_to_placed, update_entry_partial_fill,
  handle_successful_placement, handle_placement_error, with_attempt, with_position, update_entry,
}

module _ {D : Type 0} ⦃dec : Decimal D⦄ where
  -- Whether an entry exists and was attempted for the quantity.
  abbrev pub attempt_of : D → Option (ExitEntry D) → Bool
  attempt_of q none = false
  attempt_of q (some e) = attempted q e.last_attempted_fill_qty

  abbrev KeepsAttempt : (ExitEntry D → ExitEntry D) → Type 0
  KeepsAttempt f = (e : ExitEntry D) → (f e).last_attempted_fill_qty ≡ e.last_attempted_fill_qty

  update_entry-attempt :
      (q : D) (id : String) (f : ExitEntry D → ExitEntry D) (h : Handler D)
      → KeepsAttempt f
      → attempt_of q (lookup id h.pending_by_placeholder) ≡ true
      → attempt_of q (lookup id (update_entry id f h).pending_by_placeholder) ≡ true
  update_entry-attempt q id f h keeps at =
      elim (Option-cases (lookup id h.pending_by_placeholder)) [
        | inl n ↦ ground (arith, lookup-modify id id f h.pending_by_placeholder)
        | inr (e, s) ↦ ground (arith, lookup-modify id id f h.pending_by_placeholder, keeps e)
      ]

  count_failure-entries :
      (now : Now) (category : ErrorCategory) (h : Handler D)
      → (count_failure now category h).pending_by_placeholder ≡ h.pending_by_placeholder
  count_failure-entries now category h = ground arith

  settle-attempt :
      (q : D) (now : Now) (id : String) (e : ExitEntry D) (partial : Option (D × D)) (h : Handler D)
      (p : Placement D)
      → attempt_of q (lookup id h.pending_by_placeholder) ≡ true
      → attempt_of q (lookup id (settle now id e partial h p).1.pending_by_placeholder) ≡ true
  unfolding handle_successful_placement handle_placement_error update_entry_to_placed
      update_entry_partial_fill update_entry_to_failed set_status
  settle-attempt q now id e none h (submitted order n) at =
      update_entry-attempt q id _ h (λ e. refl) at
  settle-attempt q now id e (some f) h (submitted order n) at =
      update_entry-attempt q id _ h (λ e. refl) at
  settle-attempt q now id e partial h (refused (insufficient_balance m a b) n) at = at
  settle-attempt q now id e partial h (refused (wash_trade m) n) at = at
  settle-attempt q now id e partial h (refused (place_failed m c category) n) at =
      update_entry-attempt q id _ (count_failure now category h) (λ e. refl)
        (rw (count_failure-entries now category h) at)

  module _ {W : Type 0} (market : Market D W) where
    place_exit-attempt :
        (q : D) (id : String) (e : ExitEntry D) (quantity filled total : D)
        (position_id : Option String) (h : Handler D) (w : W)
        → attempt_of q (lookup id h.pending_by_placeholder) ≡ true
        → attempt_of q (
            lookup id
              (place_exit market id e quantity filled total position_id h
                w).1.0.pending_by_placeholder)
          ≡ true
    unfolding place_exit record_position_id
    place_exit-attempt q id e quantity filled total none h w at = settle-attempt q _ id e _ h _ at
    place_exit-attempt q id e quantity filled total (some position) h w at =
        settle-attempt q _ id e _ _ _
          (update_entry-attempt q id (with_position position) h (λ e. refl) at)

    attempt_fill-attempt :
        (id : String) (e : ExitEntry D) (filled total : D) (position_qty : Option D)
        (position_id : Option String) (h : Handler D) (w : W)
        → lookup id h.pending_by_placeholder ≡ some e
        → attempt_of filled (
            lookup id
              (attempt_fill market id e filled total position_qty position_id h
                w).1.0.pending_by_placeholder)
          ≡ true
    unfolding attempt_fill update_last_attempted_fill_qty
    attempt_fill-attempt id e filled total position_qty position_id h w at =
        let now = market.clock w in
        let h1 = update_entry id (with_attempt now filled) h in
        let quantity = quantity_to_place e filled total position_qty in
        let marked : attempt_of filled (lookup id h1.pending_by_placeholder) ≡ true = ground (
          arith,
          lookup-modify id id (with_attempt now filled) h.pending_by_placeholder,
          beq_refl id,
          dec.lt_irrefl filled,
        ) in
        ground
          (arith, marked, place_exit-attempt filled id e quantity filled total position_id h1 w)

    -- An entry that a fill of the quantity does not concern: missing, terminal or attempted.
    abbrev spent : D → Option (ExitEntry D) → Bool
    spent q none = true
    spent q (some e) = terminal_status e.status || attempted q e.last_attempted_fill_qty

    skips :
        (describe : ExitEntryStatus D → String) (id : String) (filled total : D)
        (position_qty : Option D) (position_id : Option String) (h : Handler D) (w : W)
        → spent filled (lookup id h.pending_by_placeholder) ≡ true
        → (process_entry_fill market describe id filled total position_qty position_id h w).1
          ≡ (h, w)
    unfolding process_entry_fill entry_verdict
    skips describe id filled total position_qty position_id h w at =
        elim (Option-cases (lookup id h.pending_by_placeholder)) [
          | inl n ↦ ground arith
          | inr (e, s) ↦ ground arith
        ]

    spent_smaller :
        (q filled : D) (o : Option (ExitEntry D))
        → le_dec q filled ≡ true
        → spent filled o ≡ true
        → spent q o ≡ true
    spent_smaller q filled none le at = at
    spent_smaller q filled (some e) le at = elim (Option-cases e.last_attempted_fill_qty) [
      | inl n ↦ ground arith
      | inr (last, s) ↦ ground (arith, dec.le_trans q filled last)
    ]

    spent_of_attempt : (q : D) (o : Option (ExitEntry D)) → attempt_of q o ≡ true → spent q o ≡ true
    spent_of_attempt q none at = refl
    spent_of_attempt q (some e) at = ground arith

    process_entry_fill-spends :
        (describe : ExitEntryStatus D → String) (id : String) (filled total : D)
        (position_qty : Option D) (position_id : Option String) (h : Handler D) (w : W)
        → spent filled (
            lookup id
              (process_entry_fill market describe id filled total position_qty position_id h
                w).1.0.pending_by_placeholder)
          ≡ true
    unfolding process_entry_fill entry_verdict
    process_entry_fill-spends describe id filled total pq pid h w =
        elim (Option-cases (lookup id h.pending_by_placeholder)) [
          | inl n ↦ ground arith
          | inr (e, s) ↦
              let h1 = (attempt_fill market id e filled total pq pid h w).1.0 in
              ground (
                arith,
                attempt_fill-attempt id e filled total pq pid h w,
                spent_of_attempt filled (lookup id h1.pending_by_placeholder),
              )
        ]

    -- Once a fill of an order was processed for an exit entry, a fill of no more than that quantity
    -- changes neither the handler nor the broker, whatever came of the first one.
    pub process_entry_fill-acts_once :
        (describe : ExitEntryStatus D → String) (id : String) (filled total : D)
        (position_qty : Option D) (position_id : Option String) (h : Handler D) (w : W)
        (filled' total' : D) (position_qty' : Option D) (position_id' : Option String)
        → le_dec filled' filled ≡ true
        → let s =
            (process_entry_fill market describe id filled total position_qty position_id h w).1 in
          (process_entry_fill market describe id filled' total' position_qty' position_id' s.0
            s.1).1
          ≡ s
    process_entry_fill-acts_once describe id filled total pq pid h w filled' total' pq' pid' le =
        let s = (process_entry_fill market describe id filled total pq pid h w).1 in
        skips describe id filled' total' pq' pid' s.0 s.1 (
          spent_smaller filled' filled (lookup id s.0.pending_by_placeholder) le
            (process_entry_fill-spends describe id filled total pq pid h w))
