-- ===== src/Exit/Breaker/Window.antt =====
-- The sliding window of the exit breaker (crates/core/src/exit_management/circuit_breaker.rs).
use trading_gateway.Base.{
  length, ◌||◌, false, Bool, ℕ, ◌-◌, ◌≤◌, List, [], ◌∷◌, ◌++◌, ltb, leb, ◌≡◌, refl, arith, retain,
  All, inl, inr, Bool-cases,
}
use trading_gateway.Exit.Breaker.{is_open, new, Breaker, record_failure, prune}

-- The failures of a list that lie in the window that ends now.
abbrev pub recent : ℕ → ℕ → List ℕ → List ℕ
recent now window = retain (λ t. leb (now - t) window)

-- Times in order, none later than `now`.
abbrev pub IsHistory : ℕ → List ℕ → Type 0
IsHistory now [] = Unit
IsHistory now (t ∷ ts) = (t ≤ now) × All (λ u. t ≤ u) ts × IsHistory now ts

recent-All :
    (now window : ℕ) (ts : List ℕ) → All (λ u. now - u ≤ window) ts → recent now window ts ≡ ts
recent-All now window [] h = refl
recent-All now window (t ∷ ts) h = ground (arith, recent-All now window ts h.1)

later_in_window :
    (now window t : ℕ) (ts : List ℕ)
    → now - t ≤ window
    → All (λ u. t ≤ u) ts
    → All (λ u. now - u ≤ window) ts
later_in_window now window t [] h a = tt
later_in_window now window t (u ∷ ts) h a =
    (omega (arith, a.0), later_in_window now window t ts h a.1)

-- On times in order, popping the front is filtering.
pub prune-recent :
    (now window : ℕ) (ts : List ℕ) → IsHistory now ts → prune now window ts ≡ recent now window ts
unfolding prune
prune-recent now window [] h = refl
prune-recent now window (t ∷ ts) h = elim (Bool-cases (ltb window (now - t))) [
  | inl old ↦ ground (arith, prune-recent now window ts h.2)
  | inr young ↦
      ground (arith, recent-All now window ts (later_in_window now window t ts (ground arith) h.1))
]

recent_again :
    (now later window : ℕ) (ts : List ℕ)
    → now ≤ later
    → recent later window (recent now window ts) ≡ recent later window ts
recent_again now later window [] h = refl
recent_again now later window (t ∷ ts) h = ground (arith, recent_again now later window ts h)

recent-append :
    (now window : ℕ) (xs ys : List ℕ)
    → recent now window (xs ++ ys) ≡ recent now window xs ++ recent now window ys
recent-append now window [] ys = refl
recent-append now window (x ∷ xs) ys = ground (arith, recent-append now window xs ys)

All-le_recent :
    (u now window : ℕ) (ts : List ℕ) → All (λ v. u ≤ v) ts → All (λ v. u ≤ v) (recent now window ts)
All-le_recent u now window [] a = tt
All-le_recent u now window (t ∷ ts) a = ground (arith, All-le_recent u now window ts a.1)

recent-IsHistory :
    (now later window : ℕ) (ts : List ℕ)
    → IsHistory now ts
    → now ≤ later
    → IsHistory later (recent now window ts)
recent-IsHistory now later window [] h le = tt
recent-IsHistory now later window (t ∷ ts) h le =
    ground (arith, recent-IsHistory now later window ts h.2, All-le_recent t now window ts h.1)

All-le_snoc :
    (u t : ℕ) (ts : List ℕ) → All (λ v. u ≤ v) ts → u ≤ t → All (λ v. u ≤ v) (ts ++ t ∷ [])
All-le_snoc u t [] a h = (h, tt)
All-le_snoc u t (v ∷ ts) a h = (a.0, All-le_snoc u t ts a.1 h)

snoc-IsHistory : (now t : ℕ) (ts : List ℕ) → IsHistory now ts → now ≤ t → IsHistory t (ts ++ t ∷ [])
snoc-IsHistory now t [] h le = (omega arith, tt, tt)
snoc-IsHistory now t (u ∷ ts) h le = (
  omega (arith, h.0),
  All-le_snoc u t ts h.1 (omega (arith, h.0)),
  snoc-IsHistory now t ts h.2 le,
)

-- The failures are recorded one after the other.
unfoldable pub record_all : List ℕ → Breaker → Breaker
record_all [] b = b
record_all (t ∷ ts) b = record_all ts (record_failure t b)

abbrev pub IsTimeline : ℕ → List ℕ → Type 0
IsTimeline now [] = Unit
IsTimeline now (t ∷ ts) = (now ≤ t) × IsTimeline t ts

-- The specification: at one of the failures `ts`, which follow those of `past`, the window that
-- ends there holds at least `threshold` failures.
abbrev pub trips : ℕ → ℕ → List ℕ → List ℕ → Bool
trips threshold window past [] = false
trips threshold window past (t ∷ ts) =
    leb threshold (length (recent t window (past ++ t ∷ [])))
    || trips threshold window (past ++ t ∷ []) ts

record_failure-recent :
    (b : Breaker) (now t : ℕ) (past : List ℕ)
    → IsHistory now past
    → now ≤ t
    → b.recent_failures ≡ recent now b.failure_window past
    → (record_failure t b).recent_failures ≡ recent t b.failure_window (past ++ t ∷ [])
unfolding record_failure
record_failure-recent b now t past h le e = ground (
  arith,
  prune-recent t b.failure_window (recent now b.failure_window past)
      (recent-IsHistory now t b.failure_window past h le),
  recent_again now t b.failure_window past le,
  recent-append t b.failure_window past (t ∷ []),
)

record_failure_state :
    (b : Breaker) (t : ℕ)
    → (is_open (record_failure t b)
        ≡ (is_open b || leb b.failure_threshold (length (record_failure t b).recent_failures)))
      × ((record_failure t b).failure_threshold ≡ b.failure_threshold)
      × ((record_failure t b).failure_window ≡ b.failure_window)
unfolding record_failure is_open
record_failure_state b t = ground arith

record_all_from :
    (ts : List ℕ) (b : Breaker) (now : ℕ) (past : List ℕ)
    → IsHistory now past
    → IsTimeline now ts
    → b.recent_failures ≡ recent now b.failure_window past
    → is_open (record_all ts b) ≡ (is_open b || trips b.failure_threshold b.failure_window past ts)
unfolding record_all
record_all_from [] b now past h line e = ground arith
record_all_from (t ∷ ts) b now past h line e =
    let b' = record_failure t b in
    let r = record_failure-recent b now t past h line.0 e in
    let (o, th, w) = record_failure_state b t in
    let ih =
      record_all_from ts b' t (past ++ t ∷ []) (snoc-IsHistory now t past h line.0) line.1
        (rw w r) in
    ground (arith, r, o, th, w, ih)

-- After failures at times in order, a new breaker is open exactly if the sliding window held, at
-- one of the failures, at least the threshold of them.
pub record_all-new_opens_iff :
    (threshold window : ℕ) (ts : List ℕ)
    → IsTimeline 0 ts
    → is_open (record_all ts (new threshold window)) ≡ trips threshold window [] ts
unfolding new is_open
record_all-new_opens_iff threshold window ts line =
    record_all_from ts (new threshold window) 0 [] tt line refl
