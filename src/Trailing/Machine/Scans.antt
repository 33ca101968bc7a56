-- ===== src/Trailing/Machine/Scans.antt =====
-- Disconnections and recovery scans (crates/core/src/trailing_stop/handler.rs) as moves of the state
-- machine, where no other task interferes.
use trading_gateway.Base.{
  ℕ, ◌-◌, String, Bool, true, false, ◌&&◌, Option, none, some, List, [], ◌∷◌, length, ltb, ◌==◌,
  option_eq, string_eq, nat_eq, if◌then◌else◌, ◌≡◌, inl, inr, refl, arith, Bool-cases, All,
}
use trading_gateway.Base.Map.{lookup, lookup-modify}
use trading_gateway.Base.Decimal.{Decimal}
use trading_gateway.Models.Error.{Result-cases}
use trading_gateway.Models.{Side}
use trading_gateway.Trailing.Types.{
  TrailingEntryStatus, TrailingEntry, pending, tracking, active, triggered, cancelled, failed,
  price_source_unavailable, is_active, set_status, calculate_stop,
}
use trading_gateway.Trailing.Machine.Selection.{IsKeyed, IsReady, passes, selected-IsReady}
use trading_gateway.Trailing.Machine.{
  Mode, gaining, losing, Move, stays, then_moves, retries, resumes, expires, loses, Follows,
  Follows-refl, Follows-trans,
}
use trading_gateway.Trailing.Machine.Turns.{IsQuiet, update_entry-Follows, set_status-Evolves}
use trading_gateway.Trailing.Orders.{Surroundings}
use trading_gateway.Trailing.Prices.{
  active_ids, disconnected, disconnect_each, lost_reason, on_price_source_disconnected,
}
use trading_gateway.Trailing.Activation.{
  activation_price, try_activate_tracking, spawn_tracking_task,
}
use trading_gateway.Trailing.Recovery.{
  is_unavailable, expire, count_attempt, failed_again, backs_off, ids_unavailable, after_retry,
  recover_found, recover_each, no_stats, RecoveryStats, retry_unavailable_entries,
  try_recover_entry,
}
use trading_gateway.Trailing.Handler.{Handler, get_entry, update_entry}
use trading_gateway.Exit.Types.{Now}

module _ {D : Type 0} ⦃dec : Decimal D⦄ where
  -- Entries under other ids stay as they are.
  pub IsReady-update :
      (test : TrailingEntry D → Bool) (id : String) (f : TrailingEntry D → TrailingEntry D)
      (h : Handler D) (ids : List String)
      → All (λ other. (id == other) ≡ false) ids
      → IsReady test h.entries_by_placeholder ids
      → IsReady test (update_entry id f h).entries_by_placeholder ids
  unfolding update_entry
  IsReady-update test id f h [] apart ready = tt
  IsReady-update test id f h (k ∷ ids) (differs, apart) (p, others, ready) = (
    rw (lookup-modify id k f h.entries_by_placeholder, differs) p,
    others,
    IsReady-update test id f h ids apart ready,
  )

  pub passing :
      (test : TrailingEntry D → Bool) (o : Option (TrailingEntry D))
      → passes test o ≡ true
      → (e : TrailingEntry D) × (o ≡ some e) × (test e ≡ true)
  passing test none p = absurd (ground (arith, p))
  passing test (some e) p = (e, refl, p)

module _ {D : Type 0} ⦃dec : Decimal D⦄ ⦃mode : Mode⦄ (loss : mode ≡ losing) where
  disconnect_each-Follows :
      (now : Now) (symbol : String) (ids : List String) (h : Handler D)
      → IsReady (λ e. e.symbol == symbol && is_active e.status) h.entries_by_placeholder ids
      → Follows h (disconnect_each now ids h)
  unfolding disconnect_each
  disconnect_each-Follows now symbol [] h ready = Follows-refl h
  disconnect_each-Follows now symbol (id ∷ ids) h (p, apart, ready) =
      let test : TrailingEntry D → Bool = λ e. e.symbol == symbol && is_active e.status in
      let (e, found, live) = passing test (lookup id h.entries_by_placeholder) p in
      let h1 = update_entry id (disconnected now) h in
      Follows-trans h h1 (disconnect_each now ids h1)
        (update_entry-Follows id (disconnected now) h e found (
          set_status-Evolves now
            (price_source_unavailable e.created_at_utc (lost_reason e.status) 0 none) e
            (loses loss (ground arith))))
        (disconnect_each-Follows now symbol ids h1
          (IsReady-update test id (disconnected now) h ids apart ready))

  pub on_price_source_disconnected-Follows :
      (now : Now) (symbol : String) (h : Handler D)
      → IsKeyed h.entries_by_placeholder
      → Follows h (on_price_source_disconnected now symbol h)
  unfolding on_price_source_disconnected active_ids
  on_price_source_disconnected-Follows now symbol h keyed =
      disconnect_each-Follows now symbol (active_ids symbol h.entries_by_placeholder) h (
        selected-IsReady (λ e. e.symbol == symbol && is_active e.status) h.entries_by_placeholder
          keyed)

module _ {D : Type 0} ⦃dec : Decimal D⦄ where
  -- Only the entry under an id changes.
  abbrev pub Spares : String → Handler D → Handler D → Type 0
  Spares id h h' =
      (k : String)
      → lookup k h'.entries_by_placeholder ≡ (
          if id == k then lookup k h'.entries_by_placeholder else lookup k h.entries_by_placeholder)

  update_entry-Spares :
      (id : String) (f : TrailingEntry D → TrailingEntry D) (h : Handler D)
      → Spares id h (update_entry id f h)
  unfolding update_entry
  update_entry-Spares id f h k = ground (arith, lookup-modify id k f h.entries_by_placeholder)

  refl-Spares : (id : String) (h : Handler D) → Spares id h h
  refl-Spares id h k = ground arith

  pub IsReady-Spares :
      (test : TrailingEntry D → Bool) (id : String) (h h' : Handler D) (ids : List String)
      → Spares id h h'
      → All (λ other. (id == other) ≡ false) ids
      → IsReady test h.entries_by_placeholder ids
      → IsReady test h'.entries_by_placeholder ids
  IsReady-Spares test id h h' [] spares apart ready = tt
  IsReady-Spares test id h h' (k ∷ ids) spares (differs, apart) (p, others, ready) = (
    ground (arith, spares k, differs, p),
    others,
    IsReady-Spares test id h h' ids spares apart ready,
  )

module _ {D : Type 0} ⦃dec : Decimal D⦄ ⦃mode : Mode⦄ (gain : mode ≡ gaining) where
  waiting_moves :
      (side : Side) (s : TrailingEntryStatus D)
      → is_unavailable s ≡ true
      → ((error : String) (n at : ℕ) → Move side s (failed error n at))
        × ((peak level : D) (at : ℕ) → Move side s (tracking peak level at))
        × ((instant : ℕ) → Move side s (failed_again instant s))
  waiting_moves side (price_source_unavailable t r n u) p =
      (λ error n at. expires, λ peak level at. resumes gain, λ instant. retries)
  waiting_moves side pending p = absurd (ground (arith, p))
  waiting_moves side (tracking a b c) p = absurd (ground (arith, p))
  waiting_moves side (active a b c d) p = absurd (ground (arith, p))
  waiting_moves side (triggered a b c) p = absurd (ground (arith, p))
  waiting_moves side (cancelled a b) p = absurd (ground (arith, p))
  waiting_moves side (failed a b c) p = absurd (ground (arith, p))

  module _ {W : Type 0} (around : Surroundings D W) (quiet : IsQuiet around) where
    recover_found-Turn :
        (id : String) (e : TrailingEntry D) (stats : RecoveryStats) (h : Handler D) (w : W)
        → lookup id h.entries_by_placeholder ≡ some e
        → is_unavailable e.status ≡ true
        → let h' = (recover_found around id e stats (h, w)).1.0 in Follows h h' × Spares id h h'
    unfolding recover_found after_retry try_activate_tracking get_entry spawn_tracking_task
        set_status update_entry
    recover_found-Turn id e stats h w found waits =
        let now = around.clock w in
        let (expiring, resuming, retrying) = waiting_moves e.side e.status waits in
        elim (Bool-cases (ltb h.config.entry_ttl (now.instant - e.created_at))) [
          | inl late ↦ rw (late) (
            update_entry-Follows id (expire now) h e found (
                set_status-Evolves now (expire now e).status e
                  (expiring "Entry TTL expired while waiting for price source" 0 now.utc)),
            update_entry-Spares id (expire now) h,
          )
          | inr early ↦ elim (Bool-cases (backs_off h.config now.instant e.status)) [
            | inl again ↦ rw (early, again) (Follows-refl h, refl-Spares id h)
            | inr due ↦
                let step = activation_price around h.config.activation_timeout e.symbol w in
                elim (Result-cases step.0) [
                  | inl (price, s) ↦
                      let then_ = around.clock step.1 in
                      let f =
                        set_status then_ (tracking price (calculate_stop e price) then_.utc) in
                      let turn : Follows h (update_entry id f h)
                          × Spares id h (update_entry id f h) =
                        (
                          update_entry-Follows id f h e found (
                              set_status-Evolves then_
                                (tracking price (calculate_stop e price) then_.utc) e
                                (resuming price (calculate_stop e price) then_.utc)),
                          update_entry-Spares id f h,
                        ) in
                      elim (Bool-cases h.self_ref) [
                        | inl spawns ↦ rw (early, due, s, quiet step.1 h, spawns, found, waits) turn
                        | inr idle ↦ rw (early, due, s, quiet step.1 h, idle, found, waits) turn
                      ]
                  | inr (error, s) ↦
                      rw (early, due, s, quiet step.1 h)
                        (
                          update_entry-Follows id (count_attempt (around.clock step.1).instant) h e
                              found
                              (
                                then_moves stays (retrying (around.clock step.1).instant),
                                refl,
                                refl,
                                refl,
                                refl,
                              ),
                          update_entry-Spares id (count_attempt (around.clock step.1).instant) h,
                        )
                ]
          ]
        ]

    pub try_recover-Turn :
        (id : String) (stats : RecoveryStats) (h : Handler D) (w : W)
        → passes (λ e. is_unavailable e.status) (lookup id h.entries_by_placeholder) ≡ true
        → let h' = (try_recover_entry around id stats (h, w)).1.0 in Follows h h' × Spares id h h'
    unfolding try_recover_entry get_entry
    try_recover-Turn id stats h w p =
        let (e, found, waits) =
          passing (λ e. is_unavailable e.status) (lookup id h.entries_by_placeholder) p in
        rw (try_recover_entry, found) (recover_found-Turn id e stats h w found waits)

    recover_each-Follows :
        (ids : List String) (stats : RecoveryStats) (h : Handler D) (w : W)
        → IsReady (λ e. is_unavailable e.status) h.entries_by_placeholder ids
        → Follows h (recover_each around ids stats (h, w)).1.0
    unfolding recover_each
    recover_each-Follows [] stats h w ready = Follows-refl h
    recover_each-Follows (id ∷ ids) stats h w (p, apart, ready) =
        let step = try_recover_entry around id stats (h, w) in
        let h1 = step.1.0 in
        let (first, spares) = try_recover-Turn id stats h w p in
        Follows-trans h h1 (recover_each around ids step.0 step.1).1.0 first (
          recover_each-Follows ids step.0 h1 step.1.1
            (IsReady-Spares (λ e. is_unavailable e.status) id h h1 ids spares apart ready))

    pub retry_unavailable_entries-Follows :
        (h : Handler D) (w : W)
        → IsKeyed h.entries_by_placeholder
        → Follows h (retry_unavailable_entries around (h, w)).1.0
    unfolding retry_unavailable_entries ids_unavailable
    retry_unavailable_entries-Follows h w keyed =
        let ids = ids_unavailable h.entries_by_placeholder in
        recover_each-Follows ids (no_stats (length ids)) h w
          (selected-IsReady (λ e. is_unavailable e.status) h.entries_by_placeholder keyed)
