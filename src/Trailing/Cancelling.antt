-- ===== src/Trailing/Cancelling.antt =====
-- Cancelling an entry, and cancelling it again (crates/core/src/trailing_stop/handler.rs).
use trading_gateway.Base.Map.{lookup-remove_self}
use trading_gateway.Base.{
  ℕ, zero, suc, ◌+◌, ◌-◌, Option, ◌==◌, if◌then◌else◌, arith, String, true, false, none, some,
  option_eq, string_eq, nat_eq, ◌≡◌, refl,
}
use trading_gateway.Base.Map.{Map, lookup, lookup-insert, lookup-remove}
use trading_gateway.Base.Decimal.{Decimal}
use trading_gateway.Trailing.Types.{
  TrailingEntry, CancellationReason, cancelled, is_terminal, set_status,
}
use trading_gateway.Trailing.Machine.Turns.{found_again}
use trading_gateway.Trailing.Handler.{
  Handler, get_entry, release_task, update_entry, cancel, decrement_symbol_task, mark_cancelled,
  cancel_found, forget_primary,
}
use trading_gateway.Exit.Types.{Now}

-- The users of a task after one of them has left; the last one ends it.
abbrev pub one_less : Option ℕ → Option ℕ
one_less none = none
one_less (some zero) = none
one_less (some (suc zero)) = none
one_less (some (suc (suc n))) = some (suc n)

released_by :
    (count : Option ℕ) (tasks : Map String ℕ) (symbol s : String)
    → lookup symbol tasks ≡ count
    → lookup s (release_task count symbol tasks)
      ≡ (if symbol == s then one_less count else lookup s tasks)
released_by none tasks symbol s is = ground (arith, is, string_eq.beq_iff symbol s)
released_by (some zero) tasks symbol s is = ground (arith, lookup-remove symbol s tasks)
released_by (some (suc zero)) tasks symbol s is = ground (arith, lookup-remove symbol s tasks)
released_by (some (suc (suc n))) tasks symbol s is =
    ground (arith, lookup-insert symbol s (suc (suc n) - 1) tasks)

released :
    (tasks : Map String ℕ) (symbol s : String)
    → lookup s (release_task (lookup symbol tasks) symbol tasks)
      ≡ (if symbol == s then one_less (lookup symbol tasks) else lookup s tasks)
released tasks symbol s = released_by (lookup symbol tasks) tasks symbol s refl

module _ {D : Type 0} ⦃dec : Decimal D⦄ where
  module _ (now : Now) (id : String) (reason : CancellationReason) (h : Handler D)
      (e : TrailingEntry D) where
    cancelled_handler : Handler D
    cancelled_handler =
        decrement_symbol_task e.symbol
          (forget_primary e.primary_order_id (update_entry id (mark_cancelled now reason) h))

    cancel_is :
        lookup id h.entries_by_placeholder ≡ some e
        → is_terminal e.status ≡ false
        → cancel now id reason h ≡ (true, cancelled_handler)
    unfolding cancel cancel_found get_entry cancelled_handler
    cancel_is found live = rw (cancel, found, live) refl

    cancel_again_is :
        (later : Now) (again : CancellationReason)
        → lookup id h.entries_by_placeholder ≡ some e
        → cancel later id again cancelled_handler ≡ (false, cancelled_handler)
    unfolding cancel cancel_found get_entry cancelled_handler update_entry forget_primary
        decrement_symbol_task set_status is_terminal
    cancel_again_is later again found =
        rw (cancel, found_again id (mark_cancelled now reason) h e found) refl

  -- The outcome of cancelling a live entry, and of cancelling it again.
  abbrev pub CancelTwice :
      (now later : Now) (id : String) (reason again : CancellationReason) (h : Handler D)
      (e : TrailingEntry D)
      → Type 0
  CancelTwice now later id reason again h e =
      let (done, h') = cancel now id reason h in
      (done ≡ true)
      × (lookup id h'.entries_by_placeholder
          ≡ some record e {
            status = cancelled now.utc reason;
            updated_at = some now.utc;
            version = e.version + 1;
          })
      × (lookup e.primary_order_id h'.entries_by_primary ≡ none)
      × ((s : String)
          → lookup s h'.symbol_tasks ≡ (
              if e.symbol == s
              then one_less (lookup e.symbol h.symbol_tasks)
              else lookup s h.symbol_tasks))
      × (cancel later id again h' ≡ (false, h'))

  -- A live entry that is cancelled has the cancelled status, its primary order no longer leads to
  -- it, and the tracking task of its symbol loses one user. Cancelling it again reports that nothing
  -- was cancelled and changes nothing.
  pub cancel-twice :
      (now later : Now) (id : String) (reason again : CancellationReason) (h : Handler D)
      (e : TrailingEntry D)
      → lookup id h.entries_by_placeholder ≡ some e
      → is_terminal e.status ≡ false
      → CancelTwice now later id reason again h e
  unfolding cancelled_handler update_entry forget_primary decrement_symbol_task set_status
  cancel-twice now later id reason again h e found live =
      rw (cancel_is now id reason h e found live) (
        refl,
        found_again id (mark_cancelled now reason) h e found,
        lookup-remove_self e.primary_order_id h.entries_by_primary,
        released h.symbol_tasks e.symbol,
        cancel_again_is now id reason h e later again found,
      )
