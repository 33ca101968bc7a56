-- ===== src/Trailing/Peaks.antt =====
-- The peak of an entry under the commands of a trailing stop handler
-- (crates/core/src/trailing_stop/handler.rs).
use trading_gateway.Exit.Placement.{or_default}
use trading_gateway.Base.{
  ap, String, false, Option, none, some, ◌≡◌, sym, subst, arith, option_eq, string_eq, nat_eq,
}
use trading_gateway.Base.Map.{lookup}
use trading_gateway.Base.Decimal.{Decimal}
use trading_gateway.Models.{Side, buy, sell}
use trading_gateway.Trailing.Types.{
  TrailingEntryStatus, TrailingEntry, pending, tracking, active, triggered, cancelled, failed,
  price_source_unavailable, is_peak_improvement,
}
use trading_gateway.Trailing.Machine.{
  Mode, gaining, losing, Move, Moves, stays, then_moves, starts, degrades, retries, resumes,
  expires, follows, places, refuses, adjusts, loses, cancels, Continues, behind_peak,
}
use trading_gateway.Trailing.Machine.Selection.{IsKeyed}
use trading_gateway.Trailing.Machine.Turns.{IsQuiet, peak_stays}
use trading_gateway.Trailing.Machine.Commands.{Command, mode_of, run, run-Follows}
use trading_gateway.Trailing.Outcomes.{registers_at, continues}
use trading_gateway.Trailing.Orders.{Surroundings}
use trading_gateway.Trailing.Handler.{Handler}

not_both : (mode : Mode) → mode ≡ losing → mode ≡ gaining → ⊥
not_both gaining l g = ground (arith, l)
not_both losing l g = ground (arith, g)

module _ {D : Type 0} ⦃dec : Decimal D⦄ where
  abbrev pub peak_of : TrailingEntryStatus D → Option D
  peak_of (tracking peak level at) = some peak
  peak_of (active id peak level at) = some peak
  peak_of _ = none

  behind_peak_trans :
      (side : Side) (a b c : D)
      → behind_peak side a b ≡ false
      → behind_peak side b c ≡ false
      → behind_peak side a c ≡ false
  unfolding is_peak_improvement
  behind_peak_trans sell a b c p q = dec.le_trans a b c p q
  behind_peak_trans buy a b c p q = dec.le_trans c b a q p

module _ {D : Type 0} ⦃dec : Decimal D⦄ ⦃mode : Mode⦄ where
  -- What became of an entry that had a peak: a peak that is not behind it, none because the price
  -- source was lost, or a final status.
  Holds : Side → D → TrailingEntryStatus D → Type 0
  Holds side p (tracking q level at) = behind_peak side p q ≡ false
  Holds side p (active id q level at) = behind_peak side p q ≡ false
  Holds side p pending = ⊥
  Holds side p (price_source_unavailable at r n u) = mode ≡ losing
  Holds side p (triggered t q at) = Unit
  Holds side p (cancelled at r) = Unit
  Holds side p (failed e n at) = Unit

  Move-Holds :
      {side : Side} {s t : TrailingEntryStatus D} (p : D)
      → Move side s t
      → Holds side p s
      → Holds side p t
  unfolding Holds
  Move-Holds p starts h = absurd h
  Move-Holds p degrades h = absurd h
  Move-Holds p retries h = h
  Move-Holds p (resumes gain) h = absurd (not_both mode h gain)
  Move-Holds p expires h = tt
  Move-Holds {side = side} p (follows {p = q} {p' = q'} b) h = behind_peak_trans side p q q' h b
  Move-Holds p places h = h
  Move-Holds p refuses h = tt
  Move-Holds {side = side} p (adjusts {p = q} {p' = q'} b) h = behind_peak_trans side p q q' h b
  Move-Holds p (loses loss live) h = loss
  Move-Holds p (cancels live) h = tt

  Moves-Holds :
      {side : Side} {s t : TrailingEntryStatus D} (p : D)
      → Moves side s t
      → Holds side p s
      → Holds side p t
  Moves-Holds p stays h = h
  Moves-Holds p (then_moves ms m) h = Move-Holds p m (Moves-Holds p ms h)

  peak-Holds :
      (side : Side) (p : D) (s : TrailingEntryStatus D)
      → peak_of s ≡ some p
      → behind_peak side p p ≡ false
      → Holds side p s
  unfolding Holds
  peak-Holds side p (tracking q level at) is self =
      subst (λ x. behind_peak side p x ≡ false) (sym (ap (or_default q) is)) self
  peak-Holds side p (active id q level at) is self =
      subst (λ x. behind_peak side p x ≡ false) (sym (ap (or_default q) is)) self
  peak-Holds side p pending is self = absurd (ground (arith, is))
  peak-Holds side p (price_source_unavailable at r n u) is self = absurd (ground (arith, is))
  peak-Holds side p (triggered t q at) is self = tt
  peak-Holds side p (cancelled at r) is self = tt
  peak-Holds side p (failed e n at) is self = tt

  Holds-peak :
      (side : Side) (p q : D) (s : TrailingEntryStatus D)
      → Holds side p s
      → peak_of s ≡ some q
      → behind_peak side p q ≡ false
  unfolding Holds
  Holds-peak side p q (tracking q' level at) h is =
      subst (λ x. behind_peak side p x ≡ false) (ap (or_default q') is) h
  Holds-peak side p q (active id q' level at) h is =
      subst (λ x. behind_peak side p x ≡ false) (ap (or_default q') is) h
  Holds-peak side p q pending h is = absurd h
  Holds-peak side p q (price_source_unavailable at r n u) h is = absurd (ground (arith, is))
  Holds-peak side p q (triggered t q' at) h is = absurd (ground (arith, is))
  Holds-peak side p q (cancelled at r) h is = absurd (ground (arith, is))
  Holds-peak side p q (failed e n at) h is = absurd (ground (arith, is))

module _ {D W : Type 0} ⦃dec : Decimal D⦄ (around : Surroundings D W) (quiet : IsQuiet around) where
  -- No command but the registration of its own primary order again lets the peak of an entry fall
  -- behind: an entry that has a peak before and after a command has the same or a better one after
  -- it, provided that no other task changes the handler meanwhile and that the entries are stored
  -- under their own ids, each once.
  pub run-keeps_peak :
      (c : Command D) (h : Handler D) (w : W) (id : String) (e e' : TrailingEntry D) (p q : D)
      → IsKeyed h.entries_by_placeholder
      → registers_at id c ≡ false
      → lookup id h.entries_by_placeholder ≡ some e
      → lookup id (run around c (h, w)).0.entries_by_placeholder ≡ some e'
      → peak_of e.status ≡ some p
      → peak_of e'.status ≡ some q
      → behind_peak e.side p q ≡ false
  run-keeps_peak c h w id e e' p q keyed apart before after had has =
      let continued =
        subst (λ o. Continues ⦃mode = mode_of c⦄ (some e) o) after
          (subst
            (λ o.
              Continues ⦃mode = mode_of c⦄ o
                (lookup id (run around c (h, w)).0.entries_by_placeholder))
            before
            (continues c id (lookup id h.entries_by_placeholder)
              (lookup id (run around c (h, w)).0.entries_by_placeholder) apart
              (run-Follows around quiet c h w keyed id))) in
      Holds-peak ⦃mode = mode_of c⦄ e.side p q e'.status
        (Moves-Holds ⦃mode = mode_of c⦄ p continued.0
          (peak-Holds ⦃mode = mode_of c⦄ e.side p e.status had (peak_stays e.side p)))
        has
