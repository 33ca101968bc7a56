-- ===== src/AckBridge/Phases.antt =====
-- The life of one event of the bridge (crates/tektii/src/ack_bridge.rs): a state machine with four
-- phases, which the queue implements for every event at once.
use mathlib.Core.Option
use trading_gateway.Base.{
  ℕ, suc, ◌+◌, String, Bool, false, Option, none, some, List, [], ◌∷◌, ◌++◌, ◌≡◌, refl, any, ◌==◌,
  string_eq, if◌then◌else◌, arith, inl, inr, ◌⊎◌, Bool-cases, Option-cases,
}
use trading_gateway.AckBridge.{
  PendingEvent, find_event, remove_event, update_event, mark_as_sent, mark_as_acked, mark_sent_one,
  ack_one,
}

pub data Phase : Type 0 where
  absent in_flight delivered acknowledged : Phase

abbrev pub phase_of : Option PendingEvent → Phase
phase_of none = absent
phase_of (some e) = if e.sent then delivered else if e.acked then acknowledged else in_flight

abbrev pub phase : String → List PendingEvent → Phase
phase id q = phase_of (find_event id q)

-- What an acknowledgment does to the event that it names.
abbrev pub on_ack : Phase → Phase
on_ack absent = absent
on_ack in_flight = acknowledged
on_ack delivered = absent
on_ack acknowledged = acknowledged

-- What a confirmed delivery does.
abbrev pub on_sent : Phase → Phase
on_sent absent = absent
on_sent in_flight = delivered
on_sent delivered = delivered
on_sent acknowledged = absent

-- How often the event is released to the engine by either.
abbrev pub released_by_ack : Phase → ℕ
released_by_ack delivered = 1
released_by_ack _ = 0

abbrev pub released_by_sent : Phase → ℕ
released_by_sent acknowledged = 1
released_by_sent _ = 0

abbrev pub count : String → List String → ℕ
count j [] = 0
count j (i ∷ is) = if i == j then suc (count j is) else count j is

pub count-append : (j : String) (xs ys : List String) → count j (xs ++ ys) ≡ count j xs + count j ys
count-append j [] ys = omega arith
count-append j (x ∷ xs) ys = ground (arith, count-append j xs ys)

abbrev pub named : String → List String → Bool
named j ids = any (λ i. i == j) ids

-- The queue holds no id twice, and nothing that is both delivered and acknowledged.
abbrev pub IsTidy : List PendingEvent → Type 0
IsTidy [] = Unit
IsTidy (e ∷ q) = (find_event e.id q ≡ none) × ((e.sent ≡ false) ⊎ (e.acked ≡ false)) × IsTidy q

pub find_event_id :
    (j : String) (q : List PendingEvent) {e : PendingEvent} → find_event j q ≡ some e → e.id ≡ j
unfolding find_event
find_event_id j [] h = cc
find_event_id j (x ∷ q) {e} h = ground (arith, string_eq.beq_iff x.id j, find_event_id j q {e = e})

-- A delivered event of a tidy queue is not acknowledged.
tidy_at :
    (j : String) (q : List PendingEvent) {e : PendingEvent}
    → find_event j q ≡ some e
    → IsTidy q
    → (e.sent ≡ false) ⊎ (e.acked ≡ false)
unfolding find_event
tidy_at j [] h t = cc
tidy_at j (x ∷ q) {e} h t = ground (arith, tidy_at j q {e = e})

find_event-remove :
    (i j : String) (q : List PendingEvent)
    → IsTidy q
    → find_event j (remove_event i q) ≡ (if i == j then none else find_event j q)
unfolding find_event remove_event
find_event-remove i j [] t = ground arith
find_event-remove i j (x ∷ q) t = ground (
  arith,
  string_eq.beq_iff x.id i,
  string_eq.beq_iff x.id j,
  string_eq.beq_iff i j,
  find_event-remove i j q t.2,
)

find_event-update :
    (i j : String) (f : PendingEvent → PendingEvent) (q : List PendingEvent)
    → ((e : PendingEvent) → (f e).id ≡ e.id)
    → find_event j (update_event i f q)
      ≡ (if i == j then Option.map f (find_event j q) else find_event j q)
unfolding find_event update_event
find_event-update i j f [] keeps = ground arith
find_event-update i j f (x ∷ q) keeps = ground (
  arith,
  keeps x,
  string_eq.beq_iff x.id i,
  string_eq.beq_iff x.id j,
  string_eq.beq_iff i j,
  find_event-update i j f q keeps,
)

pub phase-ack_one :
    (i j : String) (q : List PendingEvent) (released : List String)
    → IsTidy q
    → phase j (ack_one i (q, released)).0 ≡ (if i == j then on_ack (phase j q) else phase j q)
unfolding ack_one
phase-ack_one i j q released t = ground (
  arith,
  string_eq.beq_iff i j,
  find_event-remove i j q t,
  find_event-update i j mark_as_acked q (λ e. refl),
)

remove-update :
    (i : String) (f : PendingEvent → PendingEvent) (q : List PendingEvent)
    → ((e : PendingEvent) → (f e).id ≡ e.id)
    → remove_event i (update_event i f q) ≡ remove_event i q
unfolding remove_event update_event
remove-update i f [] keeps = refl
remove-update i f (x ∷ q) keeps = ground (arith, keeps x, remove-update i f q keeps)

pub phase-mark_sent_one :
    (i j : String) (q : List PendingEvent) (released : List String)
    → IsTidy q
    → phase j (mark_sent_one i (q, released)).0
      ≡ (if i == j then on_sent (phase j q) else phase j q)
unfolding mark_sent_one
phase-mark_sent_one i j q released t = elim (Option-cases (find_event i q)) [
  | inl e ↦ ground (arith, string_eq.beq_iff i j)
  | inr (x, e) ↦ ground (
    arith,
    remove-update i mark_as_sent q (λ e. refl),
    string_eq.beq_iff i j,
    find_event-remove i j q t,
    find_event-update i j mark_as_sent q (λ e. refl),
    tidy_at i q e t,
  )
]

remove-IsTidy : (i : String) (q : List PendingEvent) → IsTidy q → IsTidy (remove_event i q)
unfolding remove_event
remove-IsTidy i [] t = tt
remove-IsTidy i (x ∷ q) t = ground (arith, remove-IsTidy i q t.2, find_event-remove i x.id q t.2)

-- A write that keeps the id and keeps the event tidy keeps the queue tidy.
update-IsTidy :
    (i : String) (f : PendingEvent → PendingEvent) (q : List PendingEvent)
    → ((e : PendingEvent) → (f e).id ≡ e.id)
    → ((e : PendingEvent) → find_event i q ≡ some e → ((f e).sent ≡ false) ⊎ ((f e).acked ≡ false))
    → IsTidy q
    → IsTidy (update_event i f q)
unfolding update_event find_event
update-IsTidy i f [] keeps fine t = tt
update-IsTidy i f (x ∷ q) keeps fine t = elim (Bool-cases (x.id == i)) [
  | inl here ↦ rw here (rw (keeps x) t.0, fine x (rw here), t.2)
  | inr there ↦ rw there (
    ground (
      arith,
      find_event-update i x.id f q keeps,
      string_eq.beq_iff i x.id,
      string_eq.beq_iff x.id i,
    ),
    t.1,
    update-IsTidy i f q keeps (λ e h. fine e (rw there h)) t.2,
  )
]

pub ack_one-IsTidy :
    (i : String) (q : List PendingEvent) (released : List String)
    → IsTidy q
    → IsTidy (ack_one i (q, released)).0
unfolding ack_one
ack_one-IsTidy i q released t = elim (Option-cases (find_event i q)) [
  | inl e ↦ rw (e, ack_one) t
  | inr (x, e) ↦ ground (
    arith,
    remove-IsTidy i q t,
    λ (s : x.sent ≡ false).
        update-IsTidy i mark_as_acked q (λ y. refl) (λ y h. inl (ground arith)) t,
  )
]

pub mark_sent_one-IsTidy :
    (i : String) (q : List PendingEvent) (released : List String)
    → IsTidy q
    → IsTidy (mark_sent_one i (q, released)).0
unfolding mark_sent_one
mark_sent_one-IsTidy i q released t = elim (Option-cases (find_event i q)) [
  | inl e ↦ rw (e, mark_sent_one) t
  | inr (x, e) ↦ ground (
    arith,
    remove-update i mark_as_sent q (λ e. refl),
    remove-IsTidy i q t,
    λ (s : x.acked ≡ false).
        update-IsTidy i mark_as_sent q (λ y. refl) (λ y h. inr (ground arith)) t,
  )
]

pub released-ack_one :
    (i j : String) (q : List PendingEvent) (released : List String)
    → count j (ack_one i (q, released)).1
      ≡ count j released + (if i == j then released_by_ack (phase j q) else 0)
unfolding ack_one
released-ack_one i j q released = elim (Option-cases (find_event i q)) [
  | inl e ↦ ground (arith, string_eq.beq_iff i j)
  | inr (x, e) ↦
      ground
        (arith, find_event_id i q e, string_eq.beq_iff i j, count-append j released (x.id ∷ []))
]

pub released-mark_sent_one :
    (i j : String) (q : List PendingEvent) (released : List String)
    → IsTidy q
    → count j (mark_sent_one i (q, released)).1
      ≡ count j released + (if i == j then released_by_sent (phase j q) else 0)
unfolding mark_sent_one
released-mark_sent_one i j q released t = elim (Option-cases (find_event i q)) [
  | inl e ↦ ground (arith, string_eq.beq_iff i j)
  | inr (x, e) ↦ ground (
    arith,
    find_event_id i q e,
    string_eq.beq_iff i j,
    tidy_at i q e t,
    count-append j released (x.id ∷ []),
  )
]
