-- ===== src/Exit/Fill/Race.antt =====
-- Fills that meet no registered exits, and registrations that run at the same time
-- (crates/core/src/exit_management/fill_handler.rs).
use trading_gateway.Base.{String, false, some, string_eq, nat_eq, ◌≡◌, arith}
use trading_gateway.Base.Map.{lookup, remove, lookup-insert_self}
use trading_gateway.Base.Decimal.{Decimal}
use trading_gateway.Exit.Types.{Now, leg_eq, ExitEntryStatus}
use trading_gateway.Exit.Handler.{Handler, has_pending_for_primary}
use trading_gateway.Exit.Placement.{Market}
use trading_gateway.Exit.FillEvents.{
  FillEvent, buffered, buffer_unmatched_fill, handle_unmatched, handle_fill, process_buffered_fill,
}

-- The handler without the buffered fill of the order.
abbrev pub unbuffered : {D : Type 0} → String → Handler D → Handler D
unbuffered id h = record h { unmatched_fills = remove id h.unmatched_fills }

module _ {D W : Type 0} ⦃dec : Decimal D⦄ (market : Market D W)
    (describe : ExitEntryStatus D → String) where
  buffered-lookup :
      (now : Now) (id : String) (fill : FillEvent D) (h : Handler D)
      → lookup id (buffer_unmatched_fill now id fill h).unmatched_fills ≡ some (buffered now fill)
  unfolding buffer_unmatched_fill
  buffered-lookup now id fill h = lookup-insert_self id (buffered now fill) _

  -- A fill that finds no exits and is buffered is processed by the replay that follows, after steps
  -- that leave it in the buffer, such as the registration of the exits: exactly as if it had come
  -- then.
  pub process_buffered_fill-replays :
      (between meanwhile : Handler D → Handler D) (id : String) (fill : FillEvent D) (h : Handler D)
      (w w' : W)
      → has_pending_for_primary id h ≡ false
      → lookup id (between (buffer_unmatched_fill (market.clock w) id fill h)).unmatched_fills
        ≡ lookup id (buffer_unmatched_fill (market.clock w) id fill h).unmatched_fills
      → let waiting = (handle_unmatched market describe (λ x. x) id fill h w).1.0 in
        process_buffered_fill market describe meanwhile id (between waiting) w'
        ≡ handle_fill market describe meanwhile id fill (unbuffered id (between waiting)) w'
  unfolding handle_unmatched process_buffered_fill has_pending_for_primary buffer_unmatched_fill
  process_buffered_fill-replays between meanwhile id fill h w w' unready kept =
      ground (arith, buffered-lookup (market.clock w) id fill h)
