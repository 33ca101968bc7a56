-- ===== src/Trailing/Recovery.antt =====
-- crates/core/src/trailing_stop/handler.rs: the retries of the entries that have no price source.
use trading_gateway.Exit.Placement.{u32_max}
use trading_gateway.Base.{
  ◌^◌, ℕ, ◌+◌, ◌-◌, ◌*◌, String, Bool, true, false, ◌&&◌, Option, none, some, List, [], ◌∷◌, length,
  ltb, leb, ◌==◌, option_eq, string_eq, nat_eq, if◌then◌else◌, min,
}
use trading_gateway.Base.Map.{Map}
use trading_gateway.Base.Decimal.{Decimal}
use trading_gateway.Models.Error.{GatewayResult, ok, err}
use trading_gateway.Trailing.Types.{
  TrailingEntryStatus, TrailingEntry, TrailingStopConfig, failed, price_source_unavailable,
  set_status,
}
use trading_gateway.Trailing.Orders.{Surroundings}
use trading_gateway.Trailing.Activation.{try_activate_tracking}
use trading_gateway.Trailing.Handler.{selected, Handler, get_entry, update_entry}
use trading_gateway.Exit.Types.{Now}

pub record RecoveryStats : Type 0 where
  pub attempted : ℕ
  pub recovered : ℕ
  pub expired : ℕ
  pub still_unavailable : ℕ
  pub skipped : ℕ

-- `Duration::MAX` in milliseconds.
abbrev pub duration_max : ℕ
duration_max = 2 ^ 64 * 1000 - 1

-- `checked_mul`, or the given duration where the product is too long.
abbrev pub mul_or : ℕ → ℕ → ℕ → ℕ
mul_or fallback a b = if leb (a * b) duration_max then a * b else fallback

-- `calculate_recovery_backoff`, of the recovery interval and the longest backoff. The power of two
-- is below `u32::MAX`.
unfoldable pub calculate_recovery_backoff : (interval longest failure_count : ℕ) → ℕ
calculate_recovery_backoff interval longest failure_count =
    if failure_count == 0
    then 0
    else min (mul_or longest interval (2 ^ min (failure_count - 1) 20)) longest

module _ {D : Type 0} where
  abbrev pub is_unavailable : TrailingEntryStatus D → Bool
  is_unavailable (price_source_unavailable at reason failures last) = true
  is_unavailable _ = false

  -- Whether an entry has to wait longer before its next attempt.
  unfoldable pub backs_off : TrailingStopConfig D → ℕ → TrailingEntryStatus D → Bool
  unfolding calculate_recovery_backoff
  backs_off config instant (price_source_unavailable at reason failures (some last)) =
      ltb 0 failures
      && ltb (instant - last)
          (calculate_recovery_backoff config.recovery_interval config.max_recovery_backoff failures)
  backs_off config instant _ = false

  -- One more failed attempt; the other fields of the entry stay.
  abbrev pub failed_again : ℕ → TrailingEntryStatus D → TrailingEntryStatus D
  failed_again instant (price_source_unavailable at reason failures last) =
      price_source_unavailable at reason (min (failures + 1) u32_max) (some instant)
  failed_again instant status = status

  abbrev pub count_attempt : ℕ → TrailingEntry D → TrailingEntry D
  count_attempt instant e = record e { status = failed_again instant e.status }

  unfoldable pub ids_unavailable : Map String (TrailingEntry D) → List String
  ids_unavailable m = selected (λ e. is_unavailable e.status) m

  abbrev pub expire : Now → TrailingEntry D → TrailingEntry D
  expire now e =
      set_status now (failed "Entry TTL expired while waiting for price source" 0 now.utc) e

abbrev count_recovered : RecoveryStats → RecoveryStats
count_recovered s = record s { recovered = s.recovered + 1 }

abbrev count_expired : RecoveryStats → RecoveryStats
count_expired s = record s { expired = s.expired + 1 }

abbrev count_unavailable : RecoveryStats → RecoveryStats
count_unavailable s = record s { still_unavailable = s.still_unavailable + 1 }

abbrev count_skipped : RecoveryStats → RecoveryStats
count_skipped s = record s { skipped = s.skipped + 1 }

abbrev pub no_stats : ℕ → RecoveryStats
no_stats n = record {
  attempted = n;
  recovered = 0;
  expired = 0;
  still_unavailable = 0;
  skipped = 0;
}

module _ {D : Type 0} ⦃dec : Decimal D⦄ where
  module _ {W : Type 0} (around : Surroundings D W) where
    -- The recovered status is taken over where the entry, as it is now, still waits for prices.
    abbrev pub resume :
        String
        → TrailingEntry D
        → Option (TrailingEntry D)
        → RecoveryStats
        → Handler D × W
        → RecoveryStats × (Handler D × W)
    resume id e none stats s = (stats, s)
    resume id e (some now_there) stats (h, w) =
        if is_unavailable now_there.status
        then (count_recovered stats, (update_entry id (set_status (around.clock w) e.status) h, w))
        else (stats, (h, w))

    unfoldable pub after_retry :
        String
        → GatewayResult (TrailingEntry D) × (Handler D × W)
        → RecoveryStats
        → RecoveryStats × (Handler D × W)
    unfolding update_entry set_status get_entry
    after_retry id (ok e, (h, w)) stats = resume id e (get_entry id h) stats (h, w)
    after_retry id (err error, (h, w)) stats =
        (count_unavailable stats, (update_entry id (count_attempt (around.clock w).instant) h, w))

    unfoldable pub recover_found :
        String → TrailingEntry D → RecoveryStats → Handler D × W → RecoveryStats × (Handler D × W)
    unfolding after_retry backs_off update_entry set_status try_activate_tracking
    recover_found id e stats (h, w) =
        let now = around.clock w in
        if ltb h.config.entry_ttl (now.instant - e.created_at)
        then (count_expired stats, (update_entry id (expire now) h, w))
        else if backs_off h.config now.instant e.status
        then (count_skipped stats, (h, w))
        else after_retry id (try_activate_tracking around e (h, w)) stats

    unfoldable pub try_recover_entry :
        String → RecoveryStats → Handler D × W → RecoveryStats × (Handler D × W)
    unfolding recover_found get_entry
    try_recover_entry id stats (h, w) = elim (get_entry id h) [
      | none ↦ (stats, (h, w))
      | some e ↦ recover_found id e stats (h, w)
    ]

    unfoldable pub recover_each :
        List String → RecoveryStats → Handler D × W → RecoveryStats × (Handler D × W)
    unfolding try_recover_entry
    recover_each [] stats s = (stats, s)
    recover_each (id ∷ ids) stats s =
        let (stats1, s1) = try_recover_entry id stats s in recover_each ids stats1 s1

    unfoldable pub retry_unavailable_entries : Handler D × W → RecoveryStats × (Handler D × W)
    unfolding recover_each ids_unavailable
    retry_unavailable_entries (h, w) =
        let ids = ids_unavailable h.entries_by_placeholder in
        recover_each ids (no_stats (length ids)) (h, w)
