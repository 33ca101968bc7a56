-- ===== src/AckBridge/Refinement.antt =====
-- The bridge (crates/tektii/src/ack_bridge.rs) against the state machine of a single event.
use trading_gateway.Base.{
  ℕ, suc, ◌+◌, String, true, false, none, some, List, [], ◌∷◌, ◌++◌, ◌≡◌, refl, ◌==◌, string_eq,
  if◌then◌else◌, arith, inl,
}
use trading_gateway.AckBridge.{
  PendingEvent, Bridge, Call, registers, sends, acks, immediates, new, find_event, register_pending,
  mark_sent_one, mark_sent_all, ack_one, ack_all, mark_sent, handle_strategy_ack, immediate_ack,
  release, forward, step, run,
}
use trading_gateway.AckBridge.Phases.{
  Phase, absent, in_flight, phase, on_ack, on_sent, released_by_ack, released_by_sent, count, named,
  IsTidy, phase-ack_one, phase-mark_sent_one, ack_one-IsTidy, mark_sent_one-IsTidy,
  released-ack_one, released-mark_sent_one,
}

-- What one loop of either method does to the event `j` of a tidy queue.
abbrev Acked :
    String
    → List String
    → List PendingEvent × List String
    → List PendingEvent × List String
    → Type 0
Acked j ids (q, released) (q', released') =
    IsTidy q'
    × (phase j q' ≡ (if named j ids then on_ack (phase j q) else phase j q))
    × (count j released'
        ≡ count j released + (if named j ids then released_by_ack (phase j q) else 0))

ack_all_refines :
    (j : String) (ids : List String) (q : List PendingEvent) (released : List String)
    → IsTidy q
    → Acked j ids (q, released) (ack_all ids (q, released))
unfolding ack_all
ack_all_refines j [] q released t = (t, refl, omega arith)
ack_all_refines j (i ∷ ids) q released t =
    let s = ack_one i (q, released) in
    let (t', p, c) = ack_all_refines j ids s.0 s.1 (ack_one-IsTidy i q released t) in
    (
      t',
      ground (arith, p, phase-ack_one i j q released t),
      ground (arith, c, phase-ack_one i j q released t, released-ack_one i j q released),
    )

abbrev Sent :
    String
    → List String
    → List PendingEvent × List String
    → List PendingEvent × List String
    → Type 0
Sent j ids (q, released) (q', released') =
    IsTidy q'
    × (phase j q' ≡ (if named j ids then on_sent (phase j q) else phase j q))
    × (count j released'
        ≡ count j released + (if named j ids then released_by_sent (phase j q) else 0))

mark_sent_all_refines :
    (j : String) (ids : List String) (q : List PendingEvent) (released : List String)
    → IsTidy q
    → Sent j ids (q, released) (mark_sent_all ids (q, released))
unfolding mark_sent_all
mark_sent_all_refines j [] q released t = (t, refl, omega arith)
mark_sent_all_refines j (i ∷ ids) q released t =
    let s = mark_sent_one i (q, released) in
    let (t', p, c) = mark_sent_all_refines j ids s.0 s.1 (mark_sent_one-IsTidy i q released t) in
    (
      t',
      ground (arith, p, phase-mark_sent_one i j q released t),
      ground
          (arith, c, phase-mark_sent_one i j q released t, released-mark_sent_one i j q released t),
    )

-- How often the engine was told about the event `j`.
abbrev pub forwarded : String → List (List String) → ℕ
forwarded j [] = 0
forwarded j (batch ∷ batches) = count j batch + forwarded j batches

forwarded-append :
    (j : String) (xs : List (List String)) (batch : List String)
    → forwarded j (xs ++ batch ∷ []) ≡ forwarded j xs + count j batch
forwarded-append j [] batch = omega arith
forwarded-append j (x ∷ xs) batch = omega (arith, forwarded-append j xs batch)

-- The specification: the phase of the event `j`, and how often the engine was told about it.
abbrev pub life_step : String → Call → Phase × ℕ → Phase × ℕ
life_step j (registers i) (p, n) = if i == j then (in_flight, n) else (p, n)
life_step j (sends ids) (p, n) = if named j ids then (on_sent p, n + released_by_sent p) else (p, n)
life_step j (acks ids) (p, n) = if named j ids then (on_ack p, n + released_by_ack p) else (p, n)
life_step j (immediates i) (p, n) = if i == j then (p, suc n) else (p, n)

abbrev pub life_run : String → List Call → Phase × ℕ → Phase × ℕ
life_run j [] s = s
life_run j (c ∷ cs) s = life_run j cs (life_step j c s)

-- What the bridge knows of the event `j`.
abbrev pub life : String → Bridge → Phase × ℕ
life j b = (phase j b.queue, forwarded j b.engine_acks)

-- The engine does not use an id again while it is still queued.
abbrev pub IsFresh : Call → Bridge → Type 0
IsFresh (registers i) b = find_event i b.queue ≡ none
IsFresh _ b = Unit

abbrev pub AreFresh : List Call → Bridge → Type 0
AreFresh [] b = Unit
AreFresh (c ∷ cs) b = IsFresh c b × AreFresh cs (step c b)

pub record IsSound (b : Bridge) : Type 0 where
  pub tidy : IsTidy b.queue
  pub is_open : b.engine_open ≡ true

find_event-append :
    (j : String) (q : List PendingEvent) (e : PendingEvent)
    → find_event j (q ++ e ∷ [])
      ≡ elim (find_event j q) [ none ↦ if e.id == j then some e else none | some x ↦ some x ]
unfolding find_event
find_event-append j [] e = ground arith
find_event-append j (x ∷ q) e = ground (arith, find_event-append j q e)

append-IsTidy :
    (q : List PendingEvent) (e : PendingEvent)
    → IsTidy q
    → find_event e.id q ≡ none
    → e.sent ≡ false
    → IsTidy (q ++ e ∷ [])
unfolding find_event
append-IsTidy [] e t fresh s = (refl, inl s, tt)
append-IsTidy (x ∷ q) e t fresh s = ground (
  arith,
  append-IsTidy q e t.2,
  find_event-append x.id q e,
  string_eq.beq_iff x.id e.id,
  string_eq.beq_iff e.id x.id,
)

-- Nothing is sent for an empty batch, so the batch counts either way.
release_life :
    (j : String) (b : Bridge) (q : List PendingEvent) (released : List String)
    → b.engine_open ≡ true
    → (forwarded j (release b (q, released)).engine_acks
        ≡ forwarded j b.engine_acks + count j released)
      × ((release b (q, released)).queue ≡ q)
      × ((release b (q, released)).engine_open ≡ true)
unfolding release forward
release_life j b q [] h = (omega arith, refl, h)
release_life j b q (x ∷ xs) h = ground (arith, forwarded-append j b.engine_acks (x ∷ xs))

step_refines :
    (j : String) (c : Call) (b : Bridge)
    → IsSound b
    → IsFresh c b
    → IsSound (step c b) × (life j (step c b) ≡ life_step j c (life j b))
unfolding step register_pending mark_sent handle_strategy_ack immediate_ack forward
step_refines j (registers i) b s fresh = (
  record {
    tidy = append-IsTidy b.queue (record { id = i; sent = false; acked = false }) s.tidy fresh refl;
    is_open = s.is_open;
  },
  ground (
    arith,
    string_eq.beq_iff i j,
    find_event-append j b.queue (record { id = i; sent = false; acked = false }),
  ),
)
step_refines j (sends []) b s fresh = (s, refl)
step_refines j (sends (i ∷ ids)) b s fresh =
    let s' = mark_sent_all (i ∷ ids) (b.queue, []) in
    let (tidy, phases, counts) = mark_sent_all_refines j (i ∷ ids) b.queue [] s.tidy in
    let (told, queued, opened) = release_life j b s'.0 s'.1 s.is_open in
    (
      record { tidy = rw queued tidy; is_open = opened },
      ground (arith, phases, counts, told, queued),
    )
step_refines j (acks []) b s fresh = (s, refl)
step_refines j (acks (i ∷ ids)) b s fresh =
    let s' = ack_all (i ∷ ids) (b.queue, []) in
    let (tidy, phases, counts) = ack_all_refines j (i ∷ ids) b.queue [] s.tidy in
    let (told, queued, opened) = release_life j b s'.0 s'.1 s.is_open in
    (
      record { tidy = rw queued tidy; is_open = opened },
      ground (arith, phases, counts, told, queued),
    )
step_refines j (immediates i) b s fresh = ground (arith, forwarded-append j b.engine_acks (i ∷ []))

new-IsSound : IsSound new
unfolding new
new-IsSound = record { tidy = tt; is_open = refl }

run_from_refines :
    (j : String) (cs : List Call) (b : Bridge)
    → IsSound b
    → AreFresh cs b
    → IsSound (run cs b) × (life j (run cs b) ≡ life_run j cs (life j b))
unfolding run
run_from_refines j [] b s fresh = (s, refl)
run_from_refines j (c ∷ cs) b s fresh =
    let (s', e) = step_refines j c b s fresh.0 in
    rw (← e) (run_from_refines j cs (step c b) s' fresh.1)

-- After any calls on a new bridge with an open engine channel, in which no id is registered while
-- it is still queued, the phase of every event and the number of times the engine was told about
-- it are those of the state machine of that single event, and the queue holds no id twice.
pub run_refines :
    (j : String) (cs : List Call)
    → AreFresh cs new
    → IsSound (run cs new) × (life j (run cs new) ≡ life_run j cs (absent, 0))
unfolding new find_event
run_refines j cs fresh = run_from_refines j cs new new-IsSound fresh
