-- ===== src/Trailing/Machine.antt =====
-- The state machine of `TrailingEntryStatus` (crates/core/src/trailing_stop/types.rs) as a step
-- relation, and the operations of the handler as commands. The moves are those of the diagram there,
-- but for Active to Triggered, which no code makes, and in addition: from Pending and Active to an
-- unavailable price source, from there to Tracking and Failed, from Tracking to Failed, and from every
-- live status to Cancelled.
pub mod Turns
pub mod Updates
pub mod Selection
pub mod Scans
pub mod Starts
pub mod Commands
use trading_gateway.Base.{subst, ◌∙◌}
use trading_gateway.Base.{
  ℕ, ◌+◌, ◌-◌, ◌*◌, ◌≤◌, ◌<◌, String, ◌⧺◌, Bool, true, false, ◌&&◌, ◌||◌, Option, none, some, [],
  ◌∷◌, ◌++◌, ◌==◌, option_eq, string_eq, nat_eq, if◌then◌else◌, ◌≡◌, ◌↔◌, ◌⊎◌, refl,
}
use trading_gateway.Base.Map.{lookup}
use trading_gateway.Base.Decimal.{Decimal, lt_dec}
use trading_gateway.Models.{Side, buy, sell, trailing_stop}
use trading_gateway.Trailing.Types.{
  TrailingEntryStatus, TrailingEntry, pending, tracking, active, cancelled, failed,
  price_source_unavailable, CancellationReason, is_terminal, is_active, is_peak_improvement,
}
use trading_gateway.Trailing.Handler.{Handler}

-- What a command may do with the levels of an entry besides moving them: give new ones to an entry
-- that waits for its price source, or take them from an entry whose price source is lost.
pub data Mode : Type 0 where
  gaining losing : Mode

module _ {D : Type 0} ⦃dec : Decimal D⦄ where
  -- Whether a peak falls behind another: lower for a sell, higher for a buy.
  abbrev pub behind_peak : Side → D → D → Bool
  behind_peak sell old_peak new_peak = lt_dec new_peak old_peak
  behind_peak buy old_peak new_peak = lt_dec old_peak new_peak

module _ {D : Type 0} ⦃dec : Decimal D⦄ ⦃mode : Mode⦄ where
  -- Levels change without the peak falling behind; a resumed entry starts from the price it gets.
  pub data Move (side : Side) : TrailingEntryStatus D → TrailingEntryStatus D → Type 0 where
    starts : {p l : D} {t : ℕ} → Move side pending (tracking p l t)
    degrades :
        {t n : ℕ} {r : String} {u : Option ℕ} → Move side pending (price_source_unavailable t r n u)
    retries :
        {t t' n n' : ℕ} {r r' : String} {u u' : Option ℕ}
        → Move side (price_source_unavailable t r n u) (price_source_unavailable t' r' n' u')
    resumes :
        {t n t' : ℕ} {r : String} {u : Option ℕ} {p l : D}
        → mode ≡ gaining
        → Move side (price_source_unavailable t r n u) (tracking p l t')
    expires :
        {t n k t' : ℕ} {r e : String} {u : Option ℕ}
        → Move side (price_source_unavailable t r n u) (failed e k t')
    follows :
        {p l p' l' : D} {t t' : ℕ}
        → behind_peak side p p' ≡ false
        → Move side (tracking p l t) (tracking p' l' t')
    places : {p l l' : D} {t t' : ℕ} {id : String} → Move side (tracking p l t) (active id p l' t')
    refuses : {p l : D} {t k t' : ℕ} {e : String} → Move side (tracking p l t) (failed e k t')
    adjusts :
        {p l p' l' : D} {t t' : ℕ} {id id' : String}
        → behind_peak side p p' ≡ false
        → Move side (active id p l t) (active id' p' l' t')
    loses :
        {s : TrailingEntryStatus D} {t n : ℕ} {r : String} {u : Option ℕ}
        → mode ≡ losing
        → is_active s ≡ true
        → Move side s (price_source_unavailable t r n u)
    cancels :
        {s : TrailingEntryStatus D} {t : ℕ} {reason : CancellationReason}
        → is_terminal s ≡ false
        → Move side s (cancelled t reason)

  pub data Moves (side : Side) (s : TrailingEntryStatus D) : TrailingEntryStatus D → Type 0 where
    stays : Moves side s s
    then_moves : {t u : TrailingEntryStatus D} → Moves side s t → Move side t u → Moves side s u

  pub Moves-trans :
      {side : Side} {s t u : TrailingEntryStatus D}
      → Moves side s t
      → Moves side t u
      → Moves side s u
  Moves-trans a stays = a
  Moves-trans a (then_moves b m) = then_moves (Moves-trans a b) m

  -- The entry under an id before and after: it keeps its identity, and its status moves.
  abbrev pub Evolves : TrailingEntry D → TrailingEntry D → Type 0
  Evolves e e' =
      Moves e.side e.status e'.status
      × (e'.side ≡ e.side)
      × (e'.symbol ≡ e.symbol)
      × (e'.placeholder_id ≡ e.placeholder_id)
      × (e'.primary_order_id ≡ e.primary_order_id)

  abbrev pub Continues : Option (TrailingEntry D) → Option (TrailingEntry D) → Type 0
  Continues none after = Unit
  Continues (some e) none = ⊥
  Continues (some e) (some e') = Evolves e e'

  -- Every entry of a handler continues in another one.
  abbrev pub Follows : Handler D → Handler D → Type 0
  Follows h h' =
      (id : String)
      → Continues (lookup id h.entries_by_placeholder) (lookup id h'.entries_by_placeholder)

  pub Evolves-refl : (e : TrailingEntry D) → Evolves e e
  Evolves-refl e = (stays, refl, refl, refl, refl)

  Evolves-trans : (a b c : TrailingEntry D) → Evolves a b → Evolves b c → Evolves a c
  Evolves-trans a b c p q = (
    Moves-trans p.0 (subst (λ s. Moves s b.status c.status) p.1 q.0),
    q.1 ∙ p.1,
    q.2 ∙ p.2,
    q.3 ∙ p.3,
    q.4 ∙ p.4,
  )

  pub Continues-refl : (o : Option (TrailingEntry D)) → Continues o o
  Continues-refl none = tt
  Continues-refl (some e) = Evolves-refl e

  Continues-trans :
      (a b c : Option (TrailingEntry D)) → Continues a b → Continues b c → Continues a c
  Continues-trans none b c p q = tt
  Continues-trans (some a) none c p q = absurd p
  Continues-trans (some a) (some b) none p q = absurd q
  Continues-trans (some a) (some b) (some c) p q = Evolves-trans a b c p q

  pub Follows-refl : (h : Handler D) → Follows h h
  Follows-refl h id = Continues-refl (lookup id h.entries_by_placeholder)

  pub Follows-trans : (a b c : Handler D) → Follows a b → Follows b c → Follows a c
  Follows-trans a b c p q id =
      Continues-trans (lookup id a.entries_by_placeholder) (lookup id b.entries_by_placeholder)
        (lookup id c.entries_by_placeholder) (p id) (q id)
