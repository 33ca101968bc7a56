-- ===== src/Trailing/Types.antt =====
-- crates/core/src/trailing_stop/types.rs. `D` is the type of decimals; times are numbers, read from
-- the wall clock (`utc`) or the monotonic clock (`instant`). Version counters are unbounded.
use trading_gateway.Base.{
  ℕ, ◌+◌, String, ◌⧺◌, Bool, true, false, Option, none, some, option_eq, string_eq, nat_eq,
  if◌then◌else◌,
}
use trading_gateway.Base.Decimal.{Decimal, zero_d, eq_dec, lt_dec, le_dec}
use trading_gateway.Models.{Side, buy, sell, TrailingType, absolute, percent, TradingPlatform}
use trading_gateway.Exit.Types.{Now}

pub data CancellationReason : Type 0 where
  primary_cancelled primary_rejected user_requested position_closed system_cleanup :
      CancellationReason

pub data TrailingEntryStatus (D : Type 0) : Type 0 where
  pending : TrailingEntryStatus D
  tracking : (peak_price stop_level : D) → (started_at : ℕ) → TrailingEntryStatus D
  active :
      (stop_order_id : String)
      → (peak_price stop_level : D) → (last_adjusted_at : ℕ) → TrailingEntryStatus D
  triggered :
      (stop_order_id : String) → (fill_price : D) → (triggered_at : ℕ) → TrailingEntryStatus D
  cancelled : (cancelled_at : ℕ) → (reason : CancellationReason) → TrailingEntryStatus D
  failed : (error : String) → (retry_count failed_at : ℕ) → TrailingEntryStatus D
  price_source_unavailable :
      (registered_at : ℕ)
      → (reason : String) → (recovery_failure_count : ℕ) → (last_recovery_attempt : Option ℕ)
      → TrailingEntryStatus D

unfoldable pub is_terminal : {D : Type 0} → TrailingEntryStatus D → Bool
is_terminal (triggered id price at) = true
is_terminal (cancelled at reason) = true
is_terminal (failed error retries at) = true
is_terminal _ = false

unfoldable pub is_active : {D : Type 0} → TrailingEntryStatus D → Bool
is_active (tracking peak level at) = true
is_active (active id peak level at) = true
is_active _ = false

unfoldable pub is_pending : {D : Type 0} → TrailingEntryStatus D → Bool
is_pending pending = true
is_pending (price_source_unavailable at reason failures last) = true
is_pending _ = false

-- `generate_placeholder_id`
unfoldable pub generate_placeholder_id : String → String
generate_placeholder_id primary_order_id = "trailing:" ⧺ primary_order_id

pub record TrailingEntry (D : Type 0) : Type 0 where
  pub placeholder_id : String
  pub primary_order_id : String
  pub symbol : String
  pub side : Side
  pub quantity : D
  pub trailing_distance : D
  pub trailing_type : TrailingType
  pub status : TrailingEntryStatus D
  pub created_at : ℕ
  pub created_at_utc : ℕ
  pub updated_at : Option ℕ
  pub platform : TradingPlatform
  pub version : ℕ

-- `TrailingStopConfig`; durations are milliseconds.
pub record TrailingStopConfig (D : Type 0) : Type 0 where
  pub max_pending_entries : ℕ
  pub entry_ttl : ℕ
  pub min_adjustment_threshold_pct : D
  pub recovery_interval : ℕ
  pub max_recovery_backoff : ℕ
  pub activation_timeout : ℕ

module _ {D : Type 0} where
  -- `TrailingEntry::new`
  unfoldable pub new_entry :
      Now → String → String → Side → D → D → TrailingType → TradingPlatform → TrailingEntry D
  unfolding generate_placeholder_id
  new_entry now primary_order_id symbol side quantity trailing_distance trailing_type platform =
      record {
        placeholder_id = generate_placeholder_id primary_order_id;
        primary_order_id = primary_order_id;
        symbol = symbol;
        side = side;
        quantity = quantity;
        trailing_distance = trailing_distance;
        trailing_type = trailing_type;
        status = pending;
        created_at = now.instant;
        created_at_utc = now.utc;
        updated_at = none;
        platform = platform;
        version = 0;
      }

  -- `TrailingEntry::set_status`
  unfoldable pub set_status : Now → TrailingEntryStatus D → TrailingEntry D → TrailingEntry D
  set_status now status e = record e {
    status = status;
    updated_at = some now.utc;
    version = e.version + 1;
  }

  -- `TrailingEntry::current_peak`, on the status.
  unfoldable pub current_peak : TrailingEntryStatus D → Option D
  current_peak (tracking peak level at) = some peak
  current_peak (active id peak level at) = some peak
  current_peak _ = none

  -- `TrailingEntry::current_stop_level`, on the status.
  unfoldable pub current_stop_level : TrailingEntryStatus D → Option D
  current_stop_level (tracking peak level at) = some level
  current_stop_level (active id peak level at) = some level
  current_stop_level _ = none

module _ {D : Type 0} ⦃dec : Decimal D⦄ where
  unfoldable pub calculate_stop_price : D → D → TrailingType → Side → D
  calculate_stop_price peak_price trailing_distance absolute sell =
      dec.sub peak_price trailing_distance
  calculate_stop_price peak_price trailing_distance percent sell =
      dec.mul peak_price (dec.sub dec.one_dec (dec.div trailing_distance dec.hundred_dec))
  calculate_stop_price peak_price trailing_distance absolute buy =
      dec.add peak_price trailing_distance
  calculate_stop_price peak_price trailing_distance percent buy =
      dec.mul peak_price (dec.add dec.one_dec (dec.div trailing_distance dec.hundred_dec))

  unfoldable pub is_peak_improvement : D → D → Side → Bool
  is_peak_improvement current_peak new_price sell = lt_dec current_peak new_price
  is_peak_improvement current_peak new_price buy = lt_dec new_price current_peak

  -- `should_adjust_stop`, with its threshold of 0.1 %.
  unfoldable pub should_adjust_stop : D → D → Bool
  should_adjust_stop current_stop new_stop =
      if eq_dec current_stop zero_d
      then true
      else le_dec dec.tenth_dec
          (dec.mul (dec.div (dec.abs (dec.sub new_stop current_stop)) current_stop) dec.hundred_dec)

  -- `TrailingEntry::calculate_stop`
  unfoldable pub calculate_stop : TrailingEntry D → D → D
  unfolding calculate_stop_price
  calculate_stop e peak_price =
      calculate_stop_price peak_price e.trailing_distance e.trailing_type e.side
