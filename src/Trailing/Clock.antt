-- ===== src/Trailing/Clock.antt =====
-- The clock while a recovery scan runs (crates/core/src/trailing_stop/handler.rs).
use trading_gateway.Base.{◌≤◌, some, true, false, List, [], ◌∷◌, String, ℕ, ◌≡◌}
use trading_gateway.Base.Map.{lookup}
use trading_gateway.Base.{
  ℕ, ◌-◌, String, true, false, some, List, [], ◌∷◌, ltb, option_eq, string_eq, nat_eq, ◌≡◌, inl,
  inr, refl, arith, Bool-cases,
}
use trading_gateway.Base.Map.{lookup}
use trading_gateway.Base.Decimal.{Decimal}
use trading_gateway.Models.Error.{Result-cases}
use trading_gateway.Trailing.Types.{
  TrailingStopConfig, price_source_unavailable, TrailingEntryStatus, TrailingEntry,
}
use trading_gateway.Trailing.Machine.Selection.{IsReady, passes}
use trading_gateway.Trailing.Machine.Scans.{IsReady-Spares, passing, try_recover-Turn}
use trading_gateway.Trailing.Machine.{gaining}
use trading_gateway.Trailing.Machine.Turns.{IsQuiet}
use trading_gateway.Trailing.Orders.{Surroundings}
use trading_gateway.Trailing.Activation.{
  activation_price, try_activate_tracking, spawn_tracking_task,
}
use trading_gateway.Trailing.Recovery.{
  is_unavailable, backs_off, after_retry, recover_found, recover_each, RecoveryStats,
  try_recover_entry,
}
use trading_gateway.Trailing.Handler.{update_entry, Handler, get_entry}

module _ {D : Type 0} ⦃dec : Decimal D⦄ where
  pub due_later :
      (config : TrailingStopConfig D) (s : TrailingEntryStatus D) (now later : ℕ)
      → now ≤ later
      → backs_off config now s ≡ false
      → backs_off config later s ≡ false
  unfolding backs_off
  due_later config (price_source_unavailable at reason failures (some last)) now later le due =
      ground (arith, le, due)
  due_later config s now later le due = refl

  module _ {W : Type 0} (around : Surroundings D W) where
    abbrev pub instant_of : W → ℕ
    instant_of w = (around.clock w).instant

    -- Time does not run backward while the price source is asked.
    abbrev pub IsForward : Type 0
    IsForward =
        (timeout : ℕ) (symbol : String) (w : W)
        → (around.clock w).instant
          ≤ (around.clock (activation_price around timeout symbol w).1).instant

  module _ {W : Type 0} (around : Surroundings D W) (quiet : IsQuiet around) where
    found-forward :
        (forward : IsForward around) (id : String) (e : TrailingEntry D) (stats : RecoveryStats)
        (h : Handler D) (w : W)
        → lookup id h.entries_by_placeholder ≡ some e
        → is_unavailable e.status ≡ true
        → instant_of around w ≤ instant_of around (recover_found around id e stats (h, w)).1.1
    unfolding recover_found after_retry try_activate_tracking get_entry spawn_tracking_task
        update_entry
    found-forward forward id e stats h w found waits =
        let now = around.clock w in
        elim (Bool-cases (ltb h.config.entry_ttl (now.instant - e.created_at))) [
          | inl late ↦ rw (late) (omega arith)
          | inr early ↦ elim (Bool-cases (backs_off h.config now.instant e.status)) [
            | inl again ↦ rw (early, again) (omega arith)
            | inr due ↦
                let step = activation_price around h.config.activation_timeout e.symbol w in
                let ahead = forward h.config.activation_timeout e.symbol w in
                elim (Result-cases step.0) [
                  | inl (price, s) ↦ elim (Bool-cases h.self_ref) [
                    | inl spawns ↦ rw (early, due, s, quiet step.1 h, spawns, found, waits) ahead
                    | inr idle ↦ rw (early, due, s, quiet step.1 h, idle, found, waits) ahead
                  ]
                  | inr (error, s) ↦ rw (early, due, s) ahead
                ]
          ]
        ]

    pub try-forward :
        (forward : IsForward around) (id : String) (stats : RecoveryStats) (h : Handler D) (w : W)
        → passes (λ e. is_unavailable e.status) (lookup id h.entries_by_placeholder) ≡ true
        → instant_of around w ≤ instant_of around (try_recover_entry around id stats (h, w)).1.1
    unfolding try_recover_entry get_entry
    try-forward forward id stats h w p =
        let (e, found, waits) =
          passing (λ e. is_unavailable e.status) (lookup id h.entries_by_placeholder) p in
        rw (try_recover_entry, found) (found-forward forward id e stats h w found waits)

    pub recover_each-forward :
        (forward : IsForward around) (ids : List String) (stats : RecoveryStats) (h : Handler D)
        (w : W)
        → IsReady (λ e. is_unavailable e.status) h.entries_by_placeholder ids
        → instant_of around w ≤ instant_of around (recover_each around ids stats (h, w)).1.1
    unfolding recover_each
    recover_each-forward forward [] stats h w ready = omega arith
    recover_each-forward forward (id ∷ ids) stats h w (p, apart, ready) =
        let step = try_recover_entry around id stats (h, w) in
        let spares = (try_recover-Turn ⦃mode = gaining⦄ refl around quiet id stats h w p).1 in
        let one = try-forward forward id stats h w p in
        let rest =
          recover_each-forward forward ids step.0 step.1.0 step.1.1
            (IsReady-Spares (λ e. is_unavailable e.status) id h step.1.0 ids spares apart ready) in
        omega (arith, one, rest)
