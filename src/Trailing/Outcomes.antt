-- ===== src/Trailing/Outcomes.antt =====
-- What the commands of a trailing stop handler (crates/core/src/trailing_stop/handler.rs) leave
-- behind: final entries, cancelled entries, and the answers of the broker to a moved stop.
use trading_gateway.Base.{
  String, Bool, ◌==◌, inl, inr, true, false, Option, none, some, option_eq, string_eq, nat_eq, ◌≡◌,
  refl, subst, arith,
}
use trading_gateway.Base.Map.{lookup}
use trading_gateway.Base.Decimal.{Decimal}
use trading_gateway.Models.{Side}
use trading_gateway.Trailing.Types.{
  TrailingEntryStatus, TrailingEntry, generate_placeholder_id, is_terminal, is_active,
}
use trading_gateway.Trailing.Machine.Selection.{IsKeyed}
use trading_gateway.Trailing.Machine.Commands.{
  Command, mode_of, register_order, Allows, run, run-Follows,
}
use trading_gateway.Trailing.Machine.{
  Mode, Move, Moves, stays, then_moves, starts, degrades, retries, resumes, expires, follows,
  places, refuses, adjusts, loses, cancels, Evolves, Continues,
}
use trading_gateway.Trailing.Machine.Turns.{IsQuiet}
use trading_gateway.Trailing.Orders.{Surroundings}
use trading_gateway.Trailing.Handler.{Handler}

module _ {D : Type 0} ⦃dec : Decimal D⦄ where
  active_lives : (s : TrailingEntryStatus D) → is_active s ≡ true → is_terminal s ≡ false
  unfolding is_active is_terminal
  active_lives s p = ground (arith, p)

module _ {D : Type 0} ⦃dec : Decimal D⦄ ⦃mode : Mode⦄ where
  Move-source_lives :
      {side : Side} {s t : TrailingEntryStatus D} → Move side s t → is_terminal s ≡ false
  unfolding is_terminal
  Move-source_lives starts = refl
  Move-source_lives degrades = refl
  Move-source_lives retries = refl
  Move-source_lives (resumes gain) = refl
  Move-source_lives expires = refl
  Move-source_lives (follows b) = refl
  Move-source_lives places = refl
  Move-source_lives refuses = refl
  Move-source_lives (adjusts b) = refl
  Move-source_lives {s = s} (loses loss live) = active_lives s live
  Move-source_lives (cancels live) = live

  Moves-end :
      {side : Side} {s t : TrailingEntryStatus D} → Moves side s t → is_terminal s ≡ true → t ≡ s
  Moves-end stays over = refl
  Moves-end {s = s} (then_moves {t = t} a m) over =
      let same : t ≡ s = Moves-end a over in
      absurd (ground (arith, same, Move-source_lives m, over))

  pub continuation :
      (o : Option (TrailingEntry D)) (e : TrailingEntry D)
      → Continues (some e) o
      → (e' : TrailingEntry D) × (o ≡ some e') × Evolves e e'
  continuation none e c = absurd c
  continuation (some e') e c = (e', refl, c)

module _ {D : Type 0} ⦃dec : Decimal D⦄ where
  -- Whether a command registers an order under a placeholder id.
  abbrev pub registers_at : String → Command D → Bool
  registers_at id (register_order describe primary_order_id order) =
      generate_placeholder_id primary_order_id == id
  registers_at id _ = false

  pub continues :
      (c : Command D) (id : String) (before after : Option (TrailingEntry D))
      → registers_at id c ≡ false
      → Allows c id before after
      → Continues ⦃mode = mode_of c⦄ before after
  continues (register_order describe p order) id before after apart (inl same) = same
  continues (register_order describe p order) id before after apart (inr (is, _)) =
      absurd (ground (arith, apart, is, string_eq.beq_iff (generate_placeholder_id p) id))
  continues c id before after apart allowed = allowed

  module _ {W : Type 0} (around : Surroundings D W) (quiet : IsQuiet around) where
    -- An entry that was cancelled, failed or triggered keeps its status under every command but a
    -- registration of its own primary order again, and no command removes it, provided that no other
    -- task changes the handler meanwhile and that the entries are stored under their own ids, each once.
    pub run-final :
        (c : Command D) (h : Handler D) (w : W) (id : String) (e : TrailingEntry D)
        → IsKeyed h.entries_by_placeholder
        → lookup id h.entries_by_placeholder ≡ some e
        → is_terminal e.status ≡ true
        → registers_at id c ≡ false
        → (e' : TrailingEntry D) × (lookup id (run around c (h, w)).0.entries_by_placeholder
            ≡ some e')
          × (e'.status ≡ e.status)
    run-final c h w id e keyed found over apart =
        let after = lookup id (run around c (h, w)).0.entries_by_placeholder in
        let (e', there, evolves) = continuation ⦃mode = mode_of c⦄ after e (
          subst (λ o. Continues ⦃mode = mode_of c⦄ o after) found
            (continues c id (lookup id h.entries_by_placeholder) after apart
              (run-Follows around quiet c h w keyed id))) in
        (e', there, Moves-end ⦃mode = mode_of c⦄ evolves.0 over)
