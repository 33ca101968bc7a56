-- ===== src/Samples/Recoveries.antt =====
-- A trailing stop that loses its price source, and recovery scans.
use trading_gateway.Base.{
  arith, ◌+◌, ℕ, ◌-◌, String, true, false, some, length, ltb, option_eq, string_eq, nat_eq, ◌≡◌,
  refl,
}
use trading_gateway.Base.Map.{lookup, insert, modify}
use trading_gateway.Models.Error.{ok}
use trading_gateway.Trailing.Types.{TrailingEntry, new_entry, set_status}
use trading_gateway.Trailing.Machine.Selection.{IsKeyed}
use trading_gateway.Trailing.Machine.Turns.{IsQuiet}
use trading_gateway.Trailing.Orders.{Surroundings}
use trading_gateway.Trailing.Prices.{disconnected, on_price_update, on_price_source_disconnected}
use trading_gateway.Trailing.Activation.{activation_price, on_primary_filled}
use trading_gateway.Trailing.Recovery.{
  is_unavailable, backs_off, ids_unavailable, retry_unavailable_entries,
}
use trading_gateway.Trailing.Handler.{
  Handler, new_handler, register_distance, register_checked, register, insert_entry,
}
use trading_gateway.Samples.Numbers.{Whole, whole, units}
use trading_gateway.Samples.Entries.{at_time}
use trading_gateway.Trailing.Clock.{IsForward}
use trading_gateway.Trailing.Rescue.{retry_unavailable_entries-rescues, is_tracked}
use trading_gateway.Trailing.Tally.{retry_unavailable_entries-counts, dealt_with}
use trading_gateway.Samples.Trails.{around, quiet, placed, first_entry}

-- The price source is lost, and comes back.
abbrev lost : Handler Whole
lost = on_price_source_disconnected (at_time 4) "AAPL" placed.0

lost-IsKeyed : IsKeyed lost.entries_by_placeholder
unfolding register on_primary_filled on_price_update lookup insert new_handler modify
    register_distance register_checked insert_entry on_price_source_disconnected
lost-IsKeyed = (refl, refl, (refl, refl, tt))

retry_unavailable_entries-counts_example :
    let stats = (retry_unavailable_entries around (lost, 5)).0 in
    (stats.attempted ≡ length (ids_unavailable lost.entries_by_placeholder))
    × (dealt_with stats ≡ stats.attempted)
retry_unavailable_entries-counts_example =
    retry_unavailable_entries-counts around quiet lost 5 lost-IsKeyed

-- The same world, in which asking for a price takes two ticks of the clock.
abbrev steady : Surroundings Whole ℕ
steady = record around {
  prices = record around.prices { current_price = λ symbol w. (ok (units 100), w + 2) };
}

steady-forward : IsForward steady
unfolding activation_price
steady-forward timeout symbol w = omega arith

steady-quiet : IsQuiet steady
steady-quiet w h = refl

steady-prices :
    (timeout : ℕ) (symbol : String) (w : ℕ)
    → (price : Whole) × ((activation_price steady timeout symbol w).0 ≡ ok price)
unfolding activation_price
steady-prices timeout symbol w = (units 100, refl)

abbrev lost_entry : TrailingEntry Whole
lost_entry = disconnected (at_time 4) first_entry

lost-found : lookup "trailing:p1" lost.entries_by_placeholder ≡ some lost_entry
unfolding register on_primary_filled on_price_update lookup insert new_handler modify
    register_distance register_checked insert_entry on_price_source_disconnected new_entry
    set_status
lost-found = refl

lost-waits : is_unavailable lost_entry.status ≡ true
unfolding set_status
lost-waits = refl

lost-early :
    ltb lost.config.entry_ttl (
      (steady.clock (retry_unavailable_entries steady (lost, 5)).1.1).instant
      - lost_entry.created_at)
    ≡ false
unfolding retry_unavailable_entries register on_primary_filled on_price_update lookup insert
    new_handler modify register_distance register_checked insert_entry on_price_source_disconnected
    new_entry set_status
lost-early = refl

lost-due : backs_off lost.config (steady.clock 5).instant lost_entry.status ≡ false
unfolding register on_primary_filled on_price_update lookup insert new_handler modify
    register_distance register_checked insert_entry on_price_source_disconnected new_entry
    set_status backs_off
lost-due = refl

retry_unavailable_entries-rescues_example :
    is_tracked
      (lookup "trailing:p1" (retry_unavailable_entries steady (lost, 5)).1.0.entries_by_placeholder)
    ≡ true
retry_unavailable_entries-rescues_example =
    retry_unavailable_entries-rescues steady steady-quiet steady-forward steady-prices lost 5
      "trailing:p1" lost_entry lost-IsKeyed lost-found lost-waits lost-early lost-due
