-- ===== src/Trailing/Rescue.antt =====
-- What a recovery scan achieves (`retry_unavailable_entries` of
-- crates/core/src/trailing_stop/handler.rs), where no other task interferes.
use trading_gateway.Base.{
  ap, sym, subst, All, none, some, any, true, false, List, [], ◌∷◌, String, ◌==◌, Option, ℕ, ◌≡◌,
}
use trading_gateway.Base.Map.{Map, lookup}
use trading_gateway.Base.{Option, ◌∙◌}
use trading_gateway.Base.{
  ℕ, ◌-◌, String, Bool, true, false, some, List, [], ◌∷◌, length, ltb, ◌==◌, option_eq, string_eq,
  nat_eq, ◌≡◌, inl, inr, refl, arith, Bool-cases,
}
use trading_gateway.Base.Map.{lookup}
use trading_gateway.Base.Decimal.{Decimal}
use trading_gateway.Models.Error.{ok, Result-cases}
use trading_gateway.Trailing.Types.{
  calculate_stop, set_status, TrailingEntryStatus, TrailingEntry, tracking,
}
use trading_gateway.Trailing.Machine.Selection.{IsKeyed, IsReady, passes, selected-IsReady}
use trading_gateway.Trailing.Machine.Scans.{IsReady-Spares, passing, try_recover-Turn}
use trading_gateway.Trailing.Machine.{gaining}
use trading_gateway.Trailing.Machine.Turns.{found_again, IsQuiet}
use trading_gateway.Trailing.Orders.{Surroundings}
use trading_gateway.Trailing.Activation.{
  activation_price, try_activate_tracking, spawn_tracking_task,
}
use trading_gateway.Trailing.Recovery.{
  is_unavailable, backs_off, ids_unavailable, after_retry, recover_found, recover_each, no_stats,
  RecoveryStats, retry_unavailable_entries, try_recover_entry,
}
use trading_gateway.Trailing.Handler.{selected, update_entry, Handler, get_entry}
use trading_gateway.Trailing.Clock.{
  instant_of, IsForward, due_later, try-forward, recover_each-forward,
}

turned_away : (k other : String) → (k == other) ≡ false → (other == k) ≡ false
turned_away k other p = ground (arith, p, string_eq.beq_iff k other, string_eq.beq_iff other k)

module _ {D : Type 0} ⦃dec : Decimal D⦄ where
  abbrev pub tracks : TrailingEntryStatus D → Bool
  tracks (tracking peak level at) = true
  tracks _ = false

  -- Whether an option holds an entry that is tracked.
  abbrev pub is_tracked : Option (TrailingEntry D) → Bool
  is_tracked none = false
  is_tracked (some e) = tracks e.status

  selected-member :
      (test : TrailingEntry D → Bool) (id : String) (e : TrailingEntry D)
      (m : Map String (TrailingEntry D))
      → IsKeyed m
      → lookup id m ≡ some e
      → test e ≡ true
      → any (λ x. x == id) (selected test m) ≡ true
  unfolding lookup
  selected-member test id e [] keyed found chosen = absurd (ground (arith, found))
  selected-member test id e ((k, e') ∷ m) (own, gone, keyed) found chosen = ground (
    arith,
    own,
    string_eq.beq_iff k id,
    string_eq.beq_iff e'.placeholder_id id,
    selected-member test id e m keyed,
  )

  module _ {W : Type 0} (around : Surroundings D W) (quiet : IsQuiet around) where
    config_stays :
        (id : String) (e : TrailingEntry D) (stats : RecoveryStats) (h : Handler D) (w : W)
        → lookup id h.entries_by_placeholder ≡ some e
        → is_unavailable e.status ≡ true
        → (recover_found around id e stats (h, w)).1.0.config ≡ h.config
    unfolding recover_found after_retry try_activate_tracking get_entry spawn_tracking_task
        update_entry
    config_stays id e stats h w found waits =
        let now = around.clock w in
        elim (Bool-cases (ltb h.config.entry_ttl (now.instant - e.created_at))) [
          | inl late ↦ rw (late) refl
          | inr early ↦ elim (Bool-cases (backs_off h.config now.instant e.status)) [
            | inl again ↦ rw (early, again) refl
            | inr due ↦
                let step = activation_price around h.config.activation_timeout e.symbol w in
                elim (Result-cases step.0) [
                  | inl (price, s) ↦ elim (Bool-cases h.self_ref) [
                    | inl spawns ↦ rw (early, due, s, quiet step.1 h, spawns, found, waits) refl
                    | inr idle ↦ rw (early, due, s, quiet step.1 h, idle, found, waits) refl
                  ]
                  | inr (error, s) ↦ rw (early, due, s, quiet step.1 h) refl
                ]
          ]
        ]

    try_config_stays :
        (id : String) (stats : RecoveryStats) (h : Handler D) (w : W)
        → passes (λ e. is_unavailable e.status) (lookup id h.entries_by_placeholder) ≡ true
        → (try_recover_entry around id stats (h, w)).1.0.config ≡ h.config
    unfolding try_recover_entry get_entry
    try_config_stays id stats h w p =
        let (e, found, waits) =
          passing (λ e. is_unavailable e.status) (lookup id h.entries_by_placeholder) p in
        rw (try_recover_entry, found) (config_stays id e stats h w found waits)

    recover_each-spares :
        (k : String) (ids : List String) (stats : RecoveryStats) (h : Handler D) (w : W)
        → All (λ other. (k == other) ≡ false) ids
        → IsReady (λ e. is_unavailable e.status) h.entries_by_placeholder ids
        → lookup k (recover_each around ids stats (h, w)).1.0.entries_by_placeholder
          ≡ lookup k h.entries_by_placeholder
    unfolding recover_each
    recover_each-spares k [] stats h w away ready = refl
    recover_each-spares k (id ∷ ids) stats h w (off, away) (p, apart, ready) =
        let step = try_recover_entry around id stats (h, w) in
        let spares = (try_recover-Turn ⦃mode = gaining⦄ refl around quiet id stats h w p).1 in
        let rest =
          recover_each-spares k ids step.0 step.1.0 step.1.1 away
            (IsReady-Spares (λ e. is_unavailable e.status) id h step.1.0 ids spares apart ready) in
        let one : lookup k step.1.0.entries_by_placeholder ≡ lookup k h.entries_by_placeholder =
          ground (arith, spares k, turned_away k id off) in
        rest ∙ one

    module _ (forward : IsForward around)
        (prices : (timeout : ℕ) (symbol : String) (w : W)
          → (price : D) × ((activation_price around timeout symbol w).0 ≡ ok price)) where
      rescued :
          (id : String) (e : TrailingEntry D) (stats : RecoveryStats) (h : Handler D) (w : W)
          → lookup id h.entries_by_placeholder ≡ some e
          → is_unavailable e.status ≡ true
          → ltb h.config.entry_ttl ((around.clock w).instant - e.created_at) ≡ false
          → backs_off h.config (around.clock w).instant e.status ≡ false
          → is_tracked
              (lookup id (recover_found around id e stats (h, w)).1.0.entries_by_placeholder)
            ≡ true
      unfolding recover_found after_retry try_activate_tracking get_entry spawn_tracking_task
          update_entry set_status
      rescued id e stats h w found waits early due =
          let step = activation_price around h.config.activation_timeout e.symbol w in
          let (price, s) = prices h.config.activation_timeout e.symbol w in
          let then_ = around.clock step.1 in
          let f = set_status then_ (tracking price (calculate_stop e price) then_.utc) in
          let there = found_again id f h e found in
          elim (Bool-cases h.self_ref) [
            | inl spawns ↦ rw (early, due, s, quiet step.1 h, spawns, found, waits, there) refl
            | inr idle ↦ rw (early, due, s, quiet step.1 h, idle, found, waits, there) refl
          ]

      try_rescued :
          (id : String) (e : TrailingEntry D) (stats : RecoveryStats) (h : Handler D) (w : W)
          → lookup id h.entries_by_placeholder ≡ some e
          → is_unavailable e.status ≡ true
          → ltb h.config.entry_ttl ((around.clock w).instant - e.created_at) ≡ false
          → backs_off h.config (around.clock w).instant e.status ≡ false
          → is_tracked
              (lookup id (try_recover_entry around id stats (h, w)).1.0.entries_by_placeholder)
            ≡ true
      unfolding try_recover_entry get_entry
      try_rescued id e stats h w found waits early due =
          rw (try_recover_entry, found) (rescued id e stats h w found waits early due)

      rescue_each :
          (id : String) (e : TrailingEntry D) (ids : List String) (stats : RecoveryStats)
          (h : Handler D) (w : W)
          → lookup id h.entries_by_placeholder ≡ some e
          → is_unavailable e.status ≡ true
          → ltb h.config.entry_ttl
              (instant_of around (recover_each around ids stats (h, w)).1.1 - e.created_at)
            ≡ false
          → backs_off h.config (instant_of around w) e.status ≡ false
          → IsReady (λ e. is_unavailable e.status) h.entries_by_placeholder ids
          → any (λ x. x == id) ids ≡ true
          → is_tracked (lookup id (recover_each around ids stats (h, w)).1.0.entries_by_placeholder)
            ≡ true
      unfolding recover_each try_recover_entry get_entry
      rescue_each id e [] stats h w found waits early due ready listed =
          absurd (ground (arith, listed))
      rescue_each id e (k ∷ ids) stats h w found waits early due (p, apart, ready) listed =
          let step = try_recover_entry around k stats (h, w) in
          let spares = (try_recover-Turn ⦃mode = gaining⦄ refl around quiet k stats h w p).1 in
          let ready1 =
            IsReady-Spares (λ e. is_unavailable e.status) k h step.1.0 ids spares apart ready in
          let config = try_config_stays k stats h w p in
          let ends =
            recover_each-forward around quiet forward (k ∷ ids) stats h w (p, apart, ready) in
          let passes_by = try-forward around quiet forward k stats h w p in
          let later_due : backs_off h.config (instant_of around step.1.1) e.status ≡ false =
            due_later h.config e.status (instant_of around w) (instant_of around step.1.1) passes_by
              due in
          elim (Bool-cases (k == id)) [
            | inl same ↦
                let key : k ≡ id = (string_eq.beq_iff k id).0 same in
                let away : All (λ other. (id == other) ≡ false) ids =
                  subst (λ x. All (λ other. (x == other) ≡ false) ids) key apart in
                let spared = recover_each-spares id ids step.0 step.1.0 step.1.1 away ready1 in
                let tried =
                  subst
                    (λ x.
                      is_tracked (
                        lookup id
                          (try_recover_entry around x stats (h, w)).1.0.entries_by_placeholder)
                      ≡ true)
                    (sym key)
                    (try_rescued id e stats h w found waits (ground (arith, early, ends)) due) in
                ap is_tracked spared ∙ tried
            | inr other ↦
                let found1 : lookup id step.1.0.entries_by_placeholder ≡ some e =
                  ground (arith, spares id, other, found) in
                rescue_each id e ids step.0 step.1.0 step.1.1 found1 waits (rw (config) early)
                  (rw (config) later_due) ready1 (ground (arith, other, listed))
          ]

      -- Once the price source delivers a price for every symbol again, one recovery scan brings every
      -- entry back to tracking that waited for it, is not backing off as the scan begins and is not
      -- past its time to live as the scan ends, provided that time does not run backward while the
      -- price source is asked, that no other task changes the handler meanwhile, and that the entries
      -- are stored under their own ids, each once.
      pub retry_unavailable_entries-rescues :
          (h : Handler D) (w : W) (id : String) (e : TrailingEntry D)
          → IsKeyed h.entries_by_placeholder
          → lookup id h.entries_by_placeholder ≡ some e
          → is_unavailable e.status ≡ true
          → ltb h.config.entry_ttl
              ((around.clock (retry_unavailable_entries around (h, w)).1.1).instant - e.created_at)
            ≡ false
          → backs_off h.config (around.clock w).instant e.status ≡ false
          → is_tracked
              (lookup id (retry_unavailable_entries around (h, w)).1.0.entries_by_placeholder)
            ≡ true
      unfolding retry_unavailable_entries ids_unavailable
      retry_unavailable_entries-rescues h w id e keyed found waits early due =
          let ids = ids_unavailable h.entries_by_placeholder in
          rescue_each id e ids (no_stats (length ids)) h w found waits early due
            (selected-IsReady (λ e. is_unavailable e.status) h.entries_by_placeholder keyed)
            (selected-member (λ e. is_unavailable e.status) id e h.entries_by_placeholder keyed
              found waits)
