-- ===== src/Trailing/Machine/Commands.antt =====
-- The operations of a trailing stop handler (crates/core/src/trailing_stop/handler.rs) as commands,
-- and the state machine as their specification.
use trading_gateway.Trailing.Machine.Starts.{
  cancel-Follows, cancel_for_primary-Follows, cancel_async-Follows, on_primary_filled-Follows,
}
use trading_gateway.Base.{
  String, Option, some, ◌==◌, option_eq, string_eq, nat_eq, ◌≡◌, ◌⊎◌, inl, inr, refl, Bool-cases,
}
use trading_gateway.Base.Map.{lookup}
use trading_gateway.Trailing.Admission.{register-outcome, entry_of, insert_entry-lookup}
use trading_gateway.Models.Order.{OrderRequest}
use trading_gateway.Base.Decimal.{Decimal}
use trading_gateway.Models.{OrderType}
use trading_gateway.Trailing.Types.{
  TrailingEntry, generate_placeholder_id, new_entry, pending, CancellationReason, primary_cancelled,
  primary_rejected,
}
use trading_gateway.Trailing.Machine.Selection.{IsKeyed}
use trading_gateway.Trailing.Machine.Updates.{on_price_update-Follows}
use trading_gateway.Trailing.Machine.Scans.{
  on_price_source_disconnected-Follows, retry_unavailable_entries-Follows,
}
use trading_gateway.Trailing.Machine.{
  Mode, gaining, losing, Continues, Follows-refl, Continues-refl,
}
use trading_gateway.Trailing.Machine.Turns.{IsQuiet}
use trading_gateway.Trailing.Orders.{Surroundings, cancel_async}
use trading_gateway.Trailing.Prices.{on_price_update, on_price_source_disconnected}
use trading_gateway.Trailing.Activation.{on_primary_filled}
use trading_gateway.Trailing.Recovery.{retry_unavailable_entries}
use trading_gateway.Trailing.Handler.{
  Handler, register, on_primary_cancelled, on_primary_rejected, reset_circuit_breaker, cancel,
}
use trading_gateway.Exit.Types.{Now}

pub data Command (D : Type 0) : Type 0 where
  cancel_entry : (placeholder_id : String) → (reason : CancellationReason) → Command D
  cancel_with_order : (placeholder_id : String) → (reason : CancellationReason) → Command D
  cancel_primary : (primary_order_id : String) → Command D
  reject_primary : (primary_order_id : String) → Command D
  fill_primary : (primary_order_id : String) → Command D
  update_price : (symbol : String) → (price : D) → Command D
  lose_prices : (symbol : String) → Command D
  scan : Command D
  reset_breaker : Command D
  register_order :
      (describe : OrderType → String)
      → (primary_order_id : String) → (order : OrderRequest D) → Command D

module _ {D : Type 0} ⦃dec : Decimal D⦄ where
  module _ {W : Type 0} (around : Surroundings D W) where
    unfoldable pub run : Command D → Handler D × W → Handler D × W
    unfolding register cancel cancel_async on_primary_cancelled on_primary_rejected
        on_primary_filled on_price_update on_price_source_disconnected retry_unavailable_entries
        reset_circuit_breaker
    run (cancel_entry id reason) (h, w) = ((cancel (around.clock w) id reason h).1, w)
    run (cancel_with_order id reason) s = (cancel_async around id reason s).1
    run (cancel_primary id) (h, w) = ((on_primary_cancelled (around.clock w) id h).1, w)
    run (reject_primary id) (h, w) = ((on_primary_rejected (around.clock w) id h).1, w)
    run (fill_primary id) s = (on_primary_filled around id s).1
    run (update_price symbol price) s = on_price_update around symbol price s
    run (lose_prices symbol) (h, w) = (on_price_source_disconnected (around.clock w) symbol h, w)
    run scan s = (retry_unavailable_entries around s).1
    run reset_breaker (h, w) = (reset_circuit_breaker (around.clock w).instant h, w)
    run (register_order describe primary_order_id order) (h, w) =
        ((register describe (around.clock w) primary_order_id order h).1, w)

  -- Only losing the price source takes levels away.
  abbrev pub mode_of : Command D → Mode
  mode_of (lose_prices symbol) = losing
  mode_of _ = gaining

  -- A new pending entry of a primary order, under its placeholder id.
  abbrev pub IsReplaced : String → String → Option (TrailingEntry D) → Type 0
  IsReplaced primary_order_id id after =
      (generate_placeholder_id primary_order_id ≡ id)
      × ((e : TrailingEntry D) × (after ≡ some e)
          × (e.status ≡ pending)
          × (e.primary_order_id ≡ primary_order_id))

  -- The specification of a command at an id, by the entry that was there and the one after it: it
  -- continues, but for a registration of its primary order, which may put a new entry in its place.
  abbrev pub Allows :
      Command D → String → Option (TrailingEntry D) → Option (TrailingEntry D) → Type 0
  Allows (register_order describe primary_order_id order) id before after =
      Continues ⦃mode = gaining⦄ before after ⊎ IsReplaced primary_order_id id after
  Allows c id before after = Continues ⦃mode = mode_of c⦄ before after

module _ {D : Type 0} ⦃dec : Decimal D⦄ ⦃mode : Mode⦄ where
  register-Allows :
      (describe : OrderType → String) (now : Now) (primary_order_id : String)
      (order : OrderRequest D) (h : Handler D) (k : String)
      → Continues
          (lookup k h.entries_by_placeholder)
          (lookup k (register describe now primary_order_id order h).1.entries_by_placeholder)
        ⊎ IsReplaced primary_order_id k
            (lookup k (register describe now primary_order_id order h).1.entries_by_placeholder)
  unfolding new_entry
  register-Allows describe now primary_order_id order h k =
      elim (register-outcome describe now primary_order_id order h) [
        | inr (unfit, (error, is)) ↦
            rw (is) (inl (Continues-refl (lookup k h.entries_by_placeholder)))
        | inl (fits, (distance, given, is, registered)) ↦
            let id = generate_placeholder_id primary_order_id in
            let e = entry_of now primary_order_id order distance h in
            let there = insert_entry-lookup e h k in
            elim (Bool-cases (id == k)) [
              | inl same ↦
                  rw (is, there, same)
                    (inr ((string_eq.beq_iff id k).0 same, (e, refl, refl, refl)))
              | inr other ↦
                  rw (is, there, other) (inl (Continues-refl (lookup k h.entries_by_placeholder)))
            ]
      ]

module _ {D W : Type 0} ⦃dec : Decimal D⦄ (around : Surroundings D W) (quiet : IsQuiet around) where
  -- Every command takes every entry along moves of the state machine and keeps its ids, symbol and
  -- side, provided that no other task changes the handler meanwhile and that the entries are stored
  -- under their own ids, each once. Only losing the price source sends a tracked or active entry back
  -- to waiting for it, and that command resumes none.
  -- Only the registration of a primary order that has an
  -- entry may put a new pending entry in its place, whatever its status.
  pub run-Follows :
      (c : Command D) (h : Handler D) (w : W)
      → IsKeyed h.entries_by_placeholder
      → (id : String)
      → Allows c id
          (lookup id h.entries_by_placeholder)
          (lookup id (run around c (h, w)).0.entries_by_placeholder)
  unfolding run on_primary_cancelled on_primary_rejected reset_circuit_breaker
  run-Follows (cancel_entry id reason) h w keyed =
      cancel-Follows ⦃mode = gaining⦄ (around.clock w) id reason h
  run-Follows (cancel_with_order id reason) h w keyed =
      cancel_async-Follows ⦃mode = gaining⦄ around quiet id reason h w
  run-Follows (cancel_primary id) h w keyed =
      cancel_for_primary-Follows ⦃mode = gaining⦄ (around.clock w) id primary_cancelled h
  run-Follows (reject_primary id) h w keyed =
      cancel_for_primary-Follows ⦃mode = gaining⦄ (around.clock w) id primary_rejected h
  run-Follows (fill_primary id) h w keyed =
      on_primary_filled-Follows ⦃mode = gaining⦄ around quiet refl id h w
  run-Follows (update_price symbol price) h w keyed =
      on_price_update-Follows ⦃mode = gaining⦄ around quiet symbol price h w
  run-Follows (lose_prices symbol) h w keyed =
      on_price_source_disconnected-Follows ⦃mode = losing⦄ refl (around.clock w) symbol h keyed
  run-Follows scan h w keyed =
      retry_unavailable_entries-Follows ⦃mode = gaining⦄ refl around quiet h w keyed
  run-Follows reset_breaker h w keyed = Follows-refl ⦃mode = gaining⦄ h
  run-Follows (register_order describe primary_order_id order) h w keyed =
      register-Allows ⦃mode = gaining⦄ describe (around.clock w) primary_order_id order h
