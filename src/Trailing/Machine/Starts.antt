-- ===== src/Trailing/Machine/Starts.antt =====
-- Cancelling an entry and starting to track it (crates/core/src/trailing_stop/handler.rs) as moves of
-- the state machine, where no other task interferes.
use trading_gateway.Base.{
  ℕ, String, ◌⧺◌, true, Option, none, some, ◌==◌, option_eq, string_eq, nat_eq, ◌≡◌, ◌⊎◌, inl, inr,
  refl, arith, Bool-cases, Option-cases,
}
use trading_gateway.Base.Map.{lookup, lookup-insert}
use trading_gateway.Base.Decimal.{Decimal}
use trading_gateway.Models.Error.{
  GatewayError, Result-cases, ok, err, internal, invalid_request, invalid_value, validation_error,
  unauthorized, position_not_found, symbol_not_found, oco_group_not_found, order_not_modifiable,
  reset_cooldown, order_rejected, provider_error, shutting_down, unsupported_operation,
  order_not_found, rate_limited, provider_unavailable,
}
use trading_gateway.Models.{Side}
use trading_gateway.Trailing.Types.{
  TrailingEntryStatus, TrailingEntry, pending, tracking, active, triggered, cancelled, failed,
  price_source_unavailable, CancellationReason, is_terminal, is_pending, set_status, calculate_stop,
}
use trading_gateway.Trailing.Machine.{
  Mode, gaining, Move, starts, degrades, retries, resumes, cancels, Evolves, Follows, Follows-refl,
  Continues-refl,
}
use trading_gateway.Trailing.Machine.Turns.{IsQuiet, update_entry-Follows, set_status-Evolves}
use trading_gateway.Trailing.Orders.{stop_order_of, Surroundings, cancel_live, cancel_async}
use trading_gateway.Trailing.Activation.{
  activation_price, tracked_from, unavailable, put_back, fill_entry, try_activate_tracking,
  handle_activation_failure, spawn_tracking_task, on_primary_filled,
}
use trading_gateway.Trailing.Handler.{
  Handler, get_entry, cancel_for_primary, get_placeholder_for_primary, update_entry, cancel,
  decrement_symbol_task, mark_cancelled, cancel_found, forget_primary,
}
use trading_gateway.Exit.Types.{Now}

module _ {D : Type 0} ⦃dec : Decimal D⦄ ⦃mode : Mode⦄ where
  pub cancel-Follows :
      (now : Now) (id : String) (reason : CancellationReason) (h : Handler D)
      → Follows h (cancel now id reason h).1
  unfolding cancel cancel_found get_entry update_entry forget_primary decrement_symbol_task
      set_status
  cancel-Follows now id reason h = elim (Option-cases (lookup id h.entries_by_placeholder)) [
    | inl missing ↦ rw (cancel, missing) (Follows-refl h)
    | inr (e, found) ↦ elim (Bool-cases (is_terminal e.status)) [
      | inl over ↦ rw (cancel, found, over) (Follows-refl h)
      | inr live ↦
          rw (cancel, found, live)
            (update_entry-Follows id (mark_cancelled now reason) h e found
              (set_status-Evolves now (cancelled now.utc reason) e (cancels live)))
    ]
  ]

  pub cancel_for_primary-Follows :
      (now : Now) (id : String) (reason : CancellationReason) (h : Handler D)
      → Follows h (cancel_for_primary now id reason h).1
  unfolding get_placeholder_for_primary
  cancel_for_primary-Follows now id reason h =
      elim (Option-cases (lookup id h.entries_by_primary)) [
        | inl missing ↦ rw (cancel_for_primary, missing) (Follows-refl h)
        | inr (placeholder_id, found) ↦
            rw (cancel_for_primary, found) (cancel-Follows now placeholder_id reason h)
      ]

  handle_activation_failure-cases :
      (now : Now) (error : GatewayError) (e : TrailingEntry D)
      → ((r : String) × (handle_activation_failure now error e ≡ ok (unavailable now r e)))
        ⊎ (handle_activation_failure now error e ≡ err error)
  unfolding handle_activation_failure
  handle_activation_failure-cases now (invalid_request a b) e = inr refl
  handle_activation_failure-cases now (invalid_value a b c) e = inr refl
  handle_activation_failure-cases now (validation_error a) e = inr refl
  handle_activation_failure-cases now (unauthorized a b) e = inr refl
  handle_activation_failure-cases now (order_not_found a) e = inr refl
  handle_activation_failure-cases now (position_not_found a) e = inr refl
  handle_activation_failure-cases now (symbol_not_found a) e =
      inl ("Price not available for " ⧺ a, refl)
  handle_activation_failure-cases now (oco_group_not_found a) e = inr refl
  handle_activation_failure-cases now (order_not_modifiable a b) e = inr refl
  handle_activation_failure-cases now (reset_cooldown a) e = inr refl
  handle_activation_failure-cases now (order_rejected a b) e = inr refl
  handle_activation_failure-cases now (rate_limited a) e = inr refl
  handle_activation_failure-cases now (internal a) e = inr refl
  handle_activation_failure-cases now (provider_error a b) e = inr refl
  handle_activation_failure-cases now shutting_down e = inr refl
  handle_activation_failure-cases now (provider_unavailable a) e =
      inl ("Price source unavailable: " ⧺ a, refl)
  handle_activation_failure-cases now (unsupported_operation a b) e =
      inl ("Real-time price tracking not yet implemented", refl)

  pending_moves :
      (gain : mode ≡ gaining) (side : Side) (s : TrailingEntryStatus D)
      → is_pending s ≡ true
      → ((peak level : D) (at : ℕ) → Move side s (tracking peak level at))
        × ((at n : ℕ) (r : String) (u : Option ℕ) → Move side s (price_source_unavailable at r n u))
  unfolding is_pending
  pending_moves gain side pending p = (λ peak level at. starts, λ at n r u. degrades)
  pending_moves gain side (price_source_unavailable t r n u) p =
      (λ peak level at. resumes gain, λ at m q v. retries)
  pending_moves gain side (tracking a b c) p = absurd (ground (arith, p))
  pending_moves gain side (active a b c d) p = absurd (ground (arith, p))
  pending_moves gain side (triggered a b c) p = absurd (ground (arith, p))
  pending_moves gain side (cancelled a b) p = absurd (ground (arith, p))
  pending_moves gain side (failed a b c) p = absurd (ground (arith, p))

  put_back-Follows :
      (id : String) (e e1 : TrailingEntry D) (h : Handler D)
      → lookup id h.entries_by_placeholder ≡ some e
      → Evolves e e1
      → Follows h (put_back id e1 h)
  unfolding put_back
  put_back-Follows id e e1 h found step k = elim (Bool-cases (id == k)) [
    | inl same ↦
        let at_k : lookup k h.entries_by_placeholder ≡ some e =
          ground (arith, found, string_eq.beq_iff id k) in
        rw (lookup-insert id k e1 h.entries_by_placeholder, same, at_k) step
    | inr other ↦
        rw (lookup-insert id k e1 h.entries_by_placeholder, other)
          (Continues-refl (lookup k h.entries_by_placeholder))
  ]

  module _ {W : Type 0} (around : Surroundings D W) (quiet : IsQuiet around) where
    cancel_live-Follows :
        (id : String) (reason : CancellationReason) (order : Option String) (symbol : String)
        (h : Handler D) (w : W)
        → Follows h (cancel_live around id reason order symbol (h, w)).1.0
    unfolding cancel_live
    cancel_live-Follows id reason none symbol h w = cancel-Follows (around.clock w) id reason h
    cancel_live-Follows id reason (some order_id) symbol h w =
        let w1 = (around.executor.cancel_stop_order order_id symbol w).1 in
        rw (quiet w1 h) (cancel-Follows (around.clock w1) id reason h)

    pub cancel_async-Follows :
        (id : String) (reason : CancellationReason) (h : Handler D) (w : W)
        → Follows h (cancel_async around id reason (h, w)).1.0
    unfolding cancel_async get_entry
    cancel_async-Follows id reason h w = elim (Option-cases (lookup id h.entries_by_placeholder)) [
      | inl missing ↦ rw (cancel_async, missing) (Follows-refl h)
      | inr (e, found) ↦ elim (Bool-cases (is_terminal e.status)) [
        | inl over ↦ rw (cancel_async, found, over) (Follows-refl h)
        | inr live ↦
            rw (cancel_async, found, live)
              (cancel_live-Follows id reason (stop_order_of around e.status) e.symbol h w)
      ]
    ]

    filled-Follows :
        (gain : mode ≡ gaining) (id : String) (e : TrailingEntry D) (h : Handler D) (w : W)
        → lookup id h.entries_by_placeholder ≡ some e
        → Follows h (fill_entry around id (some e) (h, w)).1.0
    unfolding try_activate_tracking spawn_tracking_task put_back
    filled-Follows gain id e h w found = elim (Bool-cases (is_pending e.status)) [
      | inr begun ↦ rw (begun) (Follows-refl h)
      | inl waits ↦
          let step = activation_price around h.config.activation_timeout e.symbol w in
          let now = around.clock step.1 in
          let (tracks, degrading) = pending_moves gain e.side e.status waits in
          elim (Result-cases step.0) [
            | inl (price, s) ↦
                let e1 = tracked_from around now price e in
                let turn : Follows h (put_back id e1 h) = put_back-Follows id e e1 h found (
                  set_status-Evolves now (tracking price (calculate_stop e price) now.utc) e
                    (tracks price (calculate_stop e price) now.utc)) in
                elim (Bool-cases h.self_ref) [
                  | inl spawns ↦ rw (waits, s, quiet step.1 h, spawns) turn
                  | inr idle ↦ rw (waits, s, quiet step.1 h, idle) turn
                ]
            | inr (error, s) ↦ elim (handle_activation_failure-cases now error e) [
              | inl (r, handled) ↦
                  rw (waits, s, quiet step.1 h, handled)
                    (put_back-Follows id e (unavailable now r e) h found (
                      set_status-Evolves now (price_source_unavailable e.created_at_utc r 0 none) e
                        (degrading e.created_at_utc 0 r none)))
              | inr passed_on ↦ rw (waits, s, quiet step.1 h, passed_on) (Follows-refl h)
            ]
          ]
    ]

    pub on_primary_filled-Follows :
        (gain : mode ≡ gaining) (primary_order_id : String) (h : Handler D) (w : W)
        → Follows h (on_primary_filled around primary_order_id (h, w)).1.0
    unfolding on_primary_filled get_placeholder_for_primary get_entry
    on_primary_filled-Follows gain primary_order_id h w =
        elim (Option-cases (lookup primary_order_id h.entries_by_primary)) [
          | inl missing ↦ rw (on_primary_filled, missing) (Follows-refl h)
          | inr (id, known) ↦ elim (Option-cases (lookup id h.entries_by_placeholder)) [
            | inl gone ↦ rw (on_primary_filled, known, gone) (Follows-refl h)
            | inr (e, found) ↦
                rw (on_primary_filled, known, found) (filled-Follows gain id e h w found)
          ]
        ]
