-- ===== src/AckBridge/Conservation.antt =====
-- What the engine can conclude from the acknowledgments that the bridge
-- (crates/tektii/src/ack_bridge.rs) forwards: consequences of the refinement.
use trading_gateway.Base.{
  ℕ, suc, ◌+◌, ◌≤◌, ◌<◌, String, Bool, true, false, List, [], ◌∷◌, ◌≡◌, ◌||◌, ◌==◌, string_eq,
  if◌then◌else◌, arith, ◌⊎◌,
}
use trading_gateway.AckBridge.{Call, registers, sends, acks, immediates, new, run}
use trading_gateway.AckBridge.Phases.{Phase, absent, in_flight, delivered, acknowledged, named}
use trading_gateway.AckBridge.Refinement.{AreFresh, forwarded, life_run, run_refines}

abbrev pub acked_in : String → List Call → Bool
acked_in j [] = false
acked_in j (acks ids ∷ cs) = named j ids || acked_in j cs
acked_in j (c ∷ cs) = acked_in j cs

abbrev pub sent_in : String → List Call → Bool
sent_in j [] = false
sent_in j (sends ids ∷ cs) = named j ids || sent_in j cs
sent_in j (c ∷ cs) = sent_in j cs

-- How often the id is registered, or acknowledged at once because nobody subscribes to it.
abbrev pub owed_in : String → List Call → ℕ
owed_in j [] = 0
owed_in j (registers i ∷ cs) = if i == j then suc (owed_in j cs) else owed_in j cs
owed_in j (immediates i ∷ cs) = if i == j then suc (owed_in j cs) else owed_in j cs
owed_in j (c ∷ cs) = owed_in j cs

abbrev pub immediate_in : String → List Call → Bool
immediate_in j [] = false
immediate_in j (immediates i ∷ cs) = i == j || immediate_in j cs
immediate_in j (c ∷ cs) = immediate_in j cs

abbrev was_acked : Phase → Bool
was_acked acknowledged = true
was_acked _ = false

abbrev was_delivered : Phase → Bool
was_delivered delivered = true
was_delivered _ = false

abbrev is_queued : Phase → ℕ
is_queued absent = 0
is_queued _ = 1

life_needs :
    (j : String) (cs : List Call) (p : Phase) (n : ℕ)
    → n < (life_run j cs (p, n)).1
    → (immediate_in j cs ≡ true)
      ⊎ (((was_acked p || acked_in j cs) ≡ true) × ((was_delivered p || sent_in j cs) ≡ true))
life_needs j [] p n h = absurd (omega arith)
life_needs j (registers i ∷ cs) p n h =
    ground (arith, life_needs j cs in_flight n, life_needs j cs p n)
life_needs j (sends ids ∷ cs) absent n h =
    ground (arith, life_needs j cs absent (n + 0), life_needs j cs absent n)
life_needs j (sends ids ∷ cs) in_flight n h =
    ground (arith, life_needs j cs delivered (n + 0), life_needs j cs in_flight n)
life_needs j (sends ids ∷ cs) delivered n h =
    ground (arith, life_needs j cs delivered (n + 0), life_needs j cs delivered n)
life_needs j (sends ids ∷ cs) acknowledged n h =
    ground (arith, life_needs j cs absent (n + 1), life_needs j cs acknowledged n)
life_needs j (acks ids ∷ cs) absent n h =
    ground (arith, life_needs j cs absent (n + 0), life_needs j cs absent n)
life_needs j (acks ids ∷ cs) in_flight n h =
    ground (arith, life_needs j cs acknowledged (n + 0), life_needs j cs in_flight n)
life_needs j (acks ids ∷ cs) delivered n h =
    ground (arith, life_needs j cs absent (n + 1), life_needs j cs delivered n)
life_needs j (acks ids ∷ cs) acknowledged n h =
    ground (arith, life_needs j cs acknowledged (n + 0), life_needs j cs acknowledged n)
life_needs j (immediates i ∷ cs) p n h = ground (arith, life_needs j cs p n)

life_owed :
    (j : String) (cs : List Call) (p : Phase) (n : ℕ)
    → (life_run j cs (p, n)).1 + is_queued (life_run j cs (p, n)).0 ≤ n + is_queued p + owed_in j cs
life_owed j [] p n = omega arith
life_owed j (registers i ∷ cs) p n = ground (arith, life_owed j cs in_flight n, life_owed j cs p n)
life_owed j (immediates i ∷ cs) p n = ground (arith, life_owed j cs p (suc n), life_owed j cs p n)
life_owed j (sends ids ∷ cs) absent n =
    ground (arith, life_owed j cs absent (n + 0), life_owed j cs absent n)
life_owed j (sends ids ∷ cs) in_flight n =
    ground (arith, life_owed j cs delivered (n + 0), life_owed j cs in_flight n)
life_owed j (sends ids ∷ cs) delivered n =
    ground (arith, life_owed j cs delivered (n + 0), life_owed j cs delivered n)
life_owed j (sends ids ∷ cs) acknowledged n =
    ground (arith, life_owed j cs absent (n + 1), life_owed j cs acknowledged n)
life_owed j (acks ids ∷ cs) absent n =
    ground (arith, life_owed j cs absent (n + 0), life_owed j cs absent n)
life_owed j (acks ids ∷ cs) in_flight n =
    ground (arith, life_owed j cs acknowledged (n + 0), life_owed j cs in_flight n)
life_owed j (acks ids ∷ cs) delivered n =
    ground (arith, life_owed j cs absent (n + 1), life_owed j cs delivered n)
life_owed j (acks ids ∷ cs) acknowledged n =
    ground (arith, life_owed j cs acknowledged (n + 0), life_owed j cs acknowledged n)

-- If the engine was told about an event, then it was acknowledged at once as not subscribed, or
-- some call acknowledged it and some call confirmed its delivery; for calls on a new bridge with
-- an open engine channel in which no id is registered while it is still queued.
pub told_needs_ack_and_delivery :
    (j : String) (cs : List Call)
    → AreFresh cs new
    → 0 < forwarded j (run cs new).engine_acks
    → (immediate_in j cs ≡ true) ⊎ ((acked_in j cs ≡ true) × (sent_in j cs ≡ true))
told_needs_ack_and_delivery j cs fresh h =
    ground (arith, (run_refines j cs fresh).1, life_needs j cs absent 0)

-- The engine is told about an event at most as often as the event was registered or acknowledged
-- at once: no repeated acknowledgment or delivery advances it further. The
-- calls are on a new bridge with an open engine channel, and register no id while it is queued.
pub told_at_most_owed :
    (j : String) (cs : List Call)
    → AreFresh cs new
    → forwarded j (run cs new).engine_acks ≤ owed_in j cs
told_at_most_owed j cs fresh = ground (arith, (run_refines j cs fresh).1, life_owed j cs absent 0)
