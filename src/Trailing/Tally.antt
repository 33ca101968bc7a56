-- ===== src/Trailing/Tally.antt =====
-- The statistics of a recovery scan (`retry_unavailable_entries` of
-- crates/core/src/trailing_stop/handler.rs), where no other task interferes.
use trading_gateway.Base.{◌∙◌}
use trading_gateway.Base.{
  ℕ, ◌+◌, ◌-◌, String, true, some, List, [], ◌∷◌, all, length, ltb, option_eq, string_eq, nat_eq,
  ◌≡◌, inl, inr, refl, arith, Bool-cases,
}
use trading_gateway.Base.Map.{lookup}
use trading_gateway.Base.Decimal.{Decimal}
use trading_gateway.Models.Error.{Result-cases}
use trading_gateway.Trailing.Types.{TrailingEntry}
use trading_gateway.Trailing.Machine.Selection.{IsKeyed, IsReady, passes, selected-IsReady}
use trading_gateway.Trailing.Machine.Scans.{IsReady-Spares, passing, try_recover-Turn}
use trading_gateway.Trailing.Machine.{gaining}
use trading_gateway.Trailing.Machine.Turns.{IsQuiet}
use trading_gateway.Trailing.Orders.{Surroundings}
use trading_gateway.Trailing.Activation.{
  activation_price, try_activate_tracking, spawn_tracking_task,
}
use trading_gateway.Trailing.Recovery.{
  is_unavailable, backs_off, ids_unavailable, after_retry, recover_found, recover_each, no_stats,
  RecoveryStats, retry_unavailable_entries, try_recover_entry,
}
use trading_gateway.Trailing.Handler.{Handler, get_entry}

-- The entries that a scan has dealt with.
abbrev pub dealt_with : RecoveryStats → ℕ
dealt_with s = s.recovered + s.expired + s.still_unavailable + s.skipped

module _ {D : Type 0} ⦃dec : Decimal D⦄ where
  module _ {W : Type 0} (around : Surroundings D W) (quiet : IsQuiet around) where
    recover_found-counts :
        (id : String) (e : TrailingEntry D) (stats : RecoveryStats) (h : Handler D) (w : W)
        → lookup id h.entries_by_placeholder ≡ some e
        → is_unavailable e.status ≡ true
        → let stats' = (recover_found around id e stats (h, w)).0 in
          (stats'.attempted ≡ stats.attempted) × (dealt_with stats' ≡ dealt_with stats + 1)
    unfolding recover_found after_retry try_activate_tracking get_entry spawn_tracking_task
    recover_found-counts id e stats h w found waits =
        let now = around.clock w in
        elim (Bool-cases (ltb h.config.entry_ttl (now.instant - e.created_at))) [
          | inl late ↦ rw (late) (refl, omega arith)
          | inr early ↦ elim (Bool-cases (backs_off h.config now.instant e.status)) [
            | inl again ↦ rw (early, again) (refl, omega arith)
            | inr due ↦
                let step = activation_price around h.config.activation_timeout e.symbol w in
                elim (Result-cases step.0) [
                  | inl (price, s) ↦ elim (Bool-cases h.self_ref) [
                    | inl spawns ↦
                        rw (early, due, s, quiet step.1 h, spawns, found, waits) (refl, omega arith)
                    | inr idle ↦
                        rw (early, due, s, quiet step.1 h, idle, found, waits) (refl, omega arith)
                  ]
                  | inr (error, s) ↦ rw (early, due, s) (refl, omega arith)
                ]
          ]
        ]

    try_recover-counts :
        (id : String) (stats : RecoveryStats) (h : Handler D) (w : W)
        → passes (λ e. is_unavailable e.status) (lookup id h.entries_by_placeholder) ≡ true
        → let stats' = (try_recover_entry around id stats (h, w)).0 in
          (stats'.attempted ≡ stats.attempted) × (dealt_with stats' ≡ dealt_with stats + 1)
    unfolding try_recover_entry get_entry
    try_recover-counts id stats h w p =
        let (e, found, waits) =
          passing (λ e. is_unavailable e.status) (lookup id h.entries_by_placeholder) p in
        rw (try_recover_entry, found) (recover_found-counts id e stats h w found waits)

    recover_each-counts :
        (ids : List String) (stats : RecoveryStats) (h : Handler D) (w : W)
        → IsReady (λ e. is_unavailable e.status) h.entries_by_placeholder ids
        → let stats' = (recover_each around ids stats (h, w)).0 in
          (stats'.attempted ≡ stats.attempted) × (dealt_with stats' ≡ dealt_with stats + length ids)
    unfolding recover_each
    recover_each-counts [] stats h w ready = (refl, omega arith)
    recover_each-counts (id ∷ ids) stats h w (p, apart, ready) =
        let step = try_recover_entry around id stats (h, w) in
        let (same, one) = try_recover-counts id stats h w p in
        let spares = (try_recover-Turn ⦃mode = gaining⦄ refl around quiet id stats h w p).1 in
        let (same', rest) =
          recover_each-counts ids step.0 step.1.0 step.1.1
            (IsReady-Spares (λ e. is_unavailable e.status) id h step.1.0 ids spares apart ready) in
        (same' ∙ same, omega (arith, one, rest))

    -- The statistics of a recovery scan add up: every entry that waits for a price source is counted
    -- as attempted, and as exactly one of recovered, expired, still unavailable and skipped, provided
    -- that no other task changes the handler meanwhile and that the entries are stored under their
    -- own ids, each once.
    pub retry_unavailable_entries-counts :
        (h : Handler D) (w : W)
        → IsKeyed h.entries_by_placeholder
        → let stats = (retry_unavailable_entries around (h, w)).0 in
          (stats.attempted ≡ length (ids_unavailable h.entries_by_placeholder))
          × (dealt_with stats ≡ stats.attempted)
    unfolding retry_unavailable_entries ids_unavailable
    retry_unavailable_entries-counts h w keyed =
        let ids = ids_unavailable h.entries_by_placeholder in
        let (same, all) =
          recover_each-counts ids (no_stats (length ids)) h w
            (selected-IsReady (λ e. is_unavailable e.status) h.entries_by_placeholder keyed) in
        (same, omega (arith, all, same))
