-- ===== src/Exit/Ids.antt =====
-- Placeholder ids of crates/core/src/exit_management/types.rs: generating and parsing.
use Prim.Native.String.{slice, len}
use text.Mathlib.Text.{starts_with}
use text.Mathlib.TextPositions.{
  slice-append_right, slice-append_left, starts_with-append, len-append,
}
use mathlib.Core.Option
use text.Mathlib.TextEquality.{starts_with_iff}
use trading_gateway.Base.{
  String, ◌⧺◌, Bool, ◌||◌, Option, none, some, if◌then◌else◌, ◌≡◌, arith, Bool-cases, Option-cases,
  inl, inr,
}
use trading_gateway.Exit.Types.{ExitLegType, stop_loss, take_profit, generate_placeholder_id}

-- `str::strip_prefix`
unfoldable pub strip_prefix : String → String → Option String
strip_prefix s p = if starts_with s p then some (slice s (len p) (len s)) else none

-- `parse_placeholder_id`
unfoldable pub parse_placeholder_id : String → Option (ExitLegType × String)
parse_placeholder_id id = elim (strip_prefix id "exit:sl:") [
  | some primary_id ↦ some (stop_loss, primary_id)
  | none ↦ Option.map (λ primary_id. (take_profit, primary_id)) (strip_prefix id "exit:tp:")
]

-- `ExitHandler::is_placeholder_id` of crates/core/src/exit_management/handler.rs
unfoldable pub is_placeholder_id : String → Bool
is_placeholder_id id = starts_with id "exit:sl:" || starts_with id "exit:tp:"

strip_prefix-append : (p s : String) → strip_prefix (p ⧺ s) p ≡ some s
unfolding strip_prefix
strip_prefix-append p s =
    ground (arith, starts_with-append p s, slice-append_right p s, len-append p s)

sl_of_tp : (id : String) → strip_prefix ("exit:tp:" ⧺ id) "exit:sl:" ≡ none
unfolding strip_prefix
sl_of_tp id = rw (slice-append_left "exit:tp:" id)

-- Parsing a generated placeholder id gives back the leg type and the primary order's id.
pub parse-generate :
    (t : ExitLegType) (id : String)
    → parse_placeholder_id (generate_placeholder_id t id) ≡ some (t, id)
unfolding parse_placeholder_id generate_placeholder_id
parse-generate stop_loss id = rw (strip_prefix-append "exit:sl:" id, parse_placeholder_id)
parse-generate take_profit id =
    rw (sl_of_tp id, parse_placeholder_id) (rw (strip_prefix-append "exit:tp:" id))

strip_prefix_sound : (s p : String) {rest : String} → strip_prefix s p ≡ some rest → s ≡ p ⧺ rest
unfolding strip_prefix
strip_prefix_sound s p {rest} h = elim (Bool-cases (starts_with s p)) [
  | inl found ↦
      let (u, e) = (starts_with_iff s p).0 found in ground (arith, e, strip_prefix-append p u)
  | inr missing ↦ absurd (ground (arith, missing))
]

-- An id that parses is the generated id of what it parses to.
generate-parse :
    (s : String) (t : ExitLegType) (id : String)
    → parse_placeholder_id s ≡ some (t, id)
    → generate_placeholder_id t id ≡ s
unfolding parse_placeholder_id generate_placeholder_id
generate-parse s t id h = elim (Option-cases (strip_prefix s "exit:sl:")) [
  | inl no_sl ↦ elim (Option-cases (strip_prefix s "exit:tp:")) [
    | inl no_tp ↦ ground arith
    | inr (rest, e) ↦ ground (arith, strip_prefix_sound s "exit:tp:" e)
  ]
  | inr (rest, e) ↦ ground (arith, strip_prefix_sound s "exit:sl:" e)
]
