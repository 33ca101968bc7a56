-- ===== src/Exit/Reachable.antt =====
-- The operations of an exit handler (crates/core/src/exit_management) as commands, and the handlers
-- that they lead to from a new one.
use trading_gateway.Exit.FillEvents.{FillEvent, replayed, handle_fill, process_buffered_fill}
use trading_gateway.Exit.Invariant.{
  IsConsistent, modify-IsConsistent, activate_backup-IsConsistent, cancel_backup-IsConsistent,
}
use trading_gateway.Exit.Invariant.Registered.{register-IsConsistent, new_handler-IsConsistent}
use trading_gateway.Exit.Cancellation.{
  cancel_by_status, cancel_entry, cancelled_info, close_each, cancel_orders, set_cancelled,
  mark_cancelled, handle_cancellation, cancel_for_position_close, entries_to_cancel,
  cleanup_expired_entries, clear_failed_entries,
}
use trading_gateway.Exit.Cancellation.Handover.{handle_cancellation-IsConsistent}
use trading_gateway.Exit.Cancellation.Removal.{
  cleanup_expired_entries-IsConsistent, clear_failed_entries-IsConsistent,
}
use trading_gateway.Exit.Fill.Legs.{handle_fill-IsConsistent}
use trading_gateway.Exit.Fill.Consistency.{same_maps}
use trading_gateway.Exit.Placement.{Market}
use trading_gateway.Exit.Registration.{
  register, register_preemptive, activate_backup, cancel_backup,
}
use trading_gateway.Exit.Handler.{new_handler}
use trading_gateway.Models.{TradingPlatform}
use trading_gateway.Base.{
  arith, String, ◌⧺◌, List, [], ◌∷◌, option_eq, string_eq, nat_eq, inl, inr, refl, Option-cases,
}
use trading_gateway.Base.Map.{lookup, remove}
use trading_gateway.Base.Decimal.{Decimal}
use trading_gateway.Models.Error.{Result-cases}
use trading_gateway.Models.Adapter.{Adapter}
use trading_gateway.Models.{TradingPlatform}
use trading_gateway.Models.Order.{OrderRequest}
use trading_gateway.Exit.Types.{
  Now, leg_eq, ActualOrder, ExitEntryStatus, pending, partially_triggered, placed, failed,
  cancelled, expired, set_status, is_pending, CancellationReason, user_requested, position_closed,
  CancelledExitInfo, ExitHandlerConfig,
}
use trading_gateway.Exit.Handler.{Handler}

pub data ExitCommand (D : Type 0) : Type 0 where
  register_exits : (primary_order_id : String) → OrderRequest D → ExitCommand D
  register_backup : (uuid : String) → OrderRequest D → ExitCommand D
  activate : (backup_id actual_primary_id : String) → ExitCommand D
  drop_backup : (backup_id : String) → ExitCommand D
  take_fill : (order_id : String) → FillEvent D → ExitCommand D
  replay_fill : (order_id : String) → ExitCommand D
  cancel_one : (placeholder_id : String) → ExitCommand D
  cancel_order_exits : (primary_order_id : String) → ExitCommand D
  close_position : (symbol : String) → ExitCommand D
  clean_up : ExitCommand D
  clear_failed : ExitCommand D

module _ {D : Type 0} where
  cancelled_keeps :
      (now : Now) (reason : CancellationReason) (id : String) (h : Handler D)
      → IsConsistent h
      → IsConsistent (set_cancelled now reason id h)
  unfolding set_status is_pending
  cancelled_keeps now reason id h c =
      modify-IsConsistent id (mark_cancelled now reason) h
        (λ e. (refl, refl, λ p. absurd (ground (arith, p)))) c

  cancel_by_status-IsConsistent :
      (now : Now) (id : String) (info : CancelledExitInfo D) (s : ExitEntryStatus D) (h : Handler D)
      → IsConsistent h
      → IsConsistent (cancel_by_status now id info s h).1
  unfolding cancel_by_status
  cancel_by_status-IsConsistent now id info pending h c = cancelled_keeps now user_requested id h c
  cancel_by_status-IsConsistent now id info (partially_triggered f t []) h c =
      cancelled_keeps now user_requested id h c
  cancel_by_status-IsConsistent now id info (partially_triggered f t (o ∷ os)) h c = c
  cancel_by_status-IsConsistent now id info (placed os) h c = c
  cancel_by_status-IsConsistent now id info (failed e r t []) h c = c
  cancel_by_status-IsConsistent now id info (failed e r t (o ∷ os)) h c = c
  cancel_by_status-IsConsistent now id info (cancelled t r) h c = c
  cancel_by_status-IsConsistent now id info (expired t) h c = c

  cancel_entry-IsConsistent :
      (now : Now) (id : String) (h : Handler D)
      → IsConsistent h
      → IsConsistent (cancel_entry now id h).1
  unfolding cancel_entry
  cancel_entry-IsConsistent now id h c = elim (Option-cases (lookup id h.pending_by_placeholder)) [
    | inl missing ↦ rw (cancel_entry, missing) c
    | inr (e, found) ↦
        rw (cancel_entry, found)
          (cancel_by_status-IsConsistent now id (cancelled_info id e) e.status h c)
  ]

  close_each-IsConsistent :
      {W : Type 0} (adapter : Adapter D W) (now : Now) (work : List (String × List (ActualOrder D)))
      (h : Handler D) (w : W)
      → IsConsistent h
      → IsConsistent (record h {
        pending_by_placeholder = (close_each adapter now work h.pending_by_placeholder w).1.0;
      })
  unfolding close_each
  close_each-IsConsistent adapter now [] h w c = c
  close_each-IsConsistent adapter now ((id, os) ∷ work) h w c =
      let h1 = set_cancelled now position_closed id h in
      let rest =
        close_each-IsConsistent adapter now work h1 (cancel_orders adapter os w)
          (cancelled_keeps now position_closed id h c) in
      elim (Option-cases (lookup id h.pending_by_placeholder)) [
        | inl missing ↦ rw (close_each, missing) rest
        | inr (e, found) ↦ rw (close_each, found) rest
      ]

module _ {D W : Type 0} ⦃dec : Decimal D⦄ (market : Market D W)
    (describe : ExitEntryStatus D → String) (meanwhile : Handler D → Handler D) where
  unfoldable pub run_exit : ExitCommand D → Handler D × W → Handler D × W
  unfolding register register_preemptive activate_backup cancel_backup handle_fill
      process_buffered_fill cancel_entry handle_cancellation cancel_for_position_close
      cleanup_expired_entries clear_failed_entries
  run_exit (register_exits id order) (h, w) = ((register (market.clock w) id order h).1, w)
  run_exit (register_backup uuid order) (h, w) =
      ((register_preemptive (market.clock w) uuid order h).1, w)
  run_exit (activate backup_id actual) (h, w) = ((activate_backup backup_id actual h).1, w)
  run_exit (drop_backup backup_id) (h, w) = ((cancel_backup (market.clock w) backup_id h).1, w)
  run_exit (take_fill id fill) (h, w) = (handle_fill market describe meanwhile id fill h w).1
  run_exit (replay_fill id) (h, w) = (process_buffered_fill market describe meanwhile id h w).1
  run_exit (cancel_one id) (h, w) = ((cancel_entry (market.clock w) id h).1, w)
  run_exit (cancel_order_exits id) (h, w) = ((handle_cancellation (market.clock w) id h).1, w)
  run_exit (close_position symbol) (h, w) =
      (cancel_for_position_close market.adapter (market.clock w) symbol h w).1
  run_exit clean_up (h, w) = ((cleanup_expired_entries (market.clock w) h).1, w)
  run_exit clear_failed (h, w) = ((clear_failed_entries h).1, w)

  unfoldable pub run_exits : List (ExitCommand D) → Handler D × W → Handler D × W
  unfolding run_exit
  run_exits [] s = s
  run_exits (c ∷ cs) s = run_exits cs (run_exit c s)

  register_preemptive-IsConsistent :
      (now : Now) (uuid : String) (order : OrderRequest D) (h : Handler D)
      → IsConsistent h
      → IsConsistent (register_preemptive now uuid order h).1
  unfolding register_preemptive
  register_preemptive-IsConsistent now uuid order h c =
      let step = register now ("backup:" ⧺ uuid) order h in
      let c1 = register-IsConsistent now ("backup:" ⧺ uuid) order h c in
      elim (Result-cases step.0) [
        | inl (legs, s) ↦ rw (register_preemptive, s) c1
        | inr (e, s) ↦ rw (register_preemptive, s) c1
      ]

  module _ (others : (h : Handler D) → IsConsistent h → IsConsistent (meanwhile h)) where
    process_buffered_fill-IsConsistent :
        (id : String) (h : Handler D) (w : W)
        → IsConsistent h
        → IsConsistent (process_buffered_fill market describe meanwhile id h w).1.0
    unfolding process_buffered_fill
    process_buffered_fill-IsConsistent id h w c =
        let h1 = record h { unmatched_fills = remove id h.unmatched_fills } in
        elim (Option-cases (lookup id h.unmatched_fills)) [
          | inl missing ↦ rw (process_buffered_fill, missing) c
          | inr (fill, found) ↦
              rw (process_buffered_fill, found)
                (handle_fill-IsConsistent market describe meanwhile others id (replayed fill) h1 w
                  (same_maps h h1 refl refl c))
        ]

    run_exit-IsConsistent :
        (c : ExitCommand D) (h : Handler D) (w : W)
        → IsConsistent h
        → IsConsistent (run_exit c (h, w)).0
    unfolding run_exit cancel_for_position_close
    run_exit-IsConsistent (register_exits id order) h w c =
        register-IsConsistent (market.clock w) id order h c
    run_exit-IsConsistent (register_backup uuid order) h w c =
        register_preemptive-IsConsistent (market.clock w) uuid order h c
    run_exit-IsConsistent (activate backup_id actual) h w c =
        activate_backup-IsConsistent backup_id actual h c
    run_exit-IsConsistent (drop_backup backup_id) h w c =
        cancel_backup-IsConsistent backup_id backup_id h c (market.clock w)
    run_exit-IsConsistent (take_fill id fill) h w c =
        handle_fill-IsConsistent market describe meanwhile others id fill h w c
    run_exit-IsConsistent (replay_fill id) h w c = process_buffered_fill-IsConsistent id h w c
    run_exit-IsConsistent (cancel_one id) h w c = cancel_entry-IsConsistent (market.clock w) id h c
    run_exit-IsConsistent (cancel_order_exits id) h w c =
        handle_cancellation-IsConsistent (market.clock w) id h c
    run_exit-IsConsistent (close_position symbol) h w c =
        close_each-IsConsistent market.adapter (market.clock w)
          (entries_to_cancel symbol h.pending_by_placeholder) h w c
    run_exit-IsConsistent clean_up h w c = cleanup_expired_entries-IsConsistent (market.clock w) h c
    run_exit-IsConsistent clear_failed h w c = clear_failed_entries-IsConsistent h c

    run_exits-from :
        (cs : List (ExitCommand D)) (h : Handler D) (w : W)
        → IsConsistent h
        → IsConsistent (run_exits cs (h, w)).0
    unfolding run_exits
    run_exits-from [] h w c = c
    run_exits-from (x ∷ xs) h w c =
        let s = run_exit x (h, w) in run_exits-from xs s.0 s.1 (run_exit-IsConsistent x h w c)

    -- Whatever sequence of registrations, backups, fills, replays, cancellations and clean-ups a new
    -- handler serves, and whatever the broker answers, its maps stay consistent, provided that what
    -- other tasks do during a fill keeps them so: entries stand under their own placeholder ids, and
    -- each entry that waits for fills is found through its entry order.
    pub run_exits-IsConsistent :
        (platform : TradingPlatform) (config : ExitHandlerConfig D) (cs : List (ExitCommand D))
        (w : W)
        → IsConsistent (run_exits cs (new_handler platform config, w)).0
    run_exits-IsConsistent platform config cs w =
        run_exits-from cs (new_handler platform config) w (new_handler-IsConsistent platform config)
