-- ===== src/Samples/Acknowledgments.antt =====
-- Pending acknowledgments of two connections.
use mathlib.Core.Option
use trading_gateway.Base.{
  String, true, none, some, List, [], ◌∷◌, refl, ◌≡◌, string_eq, nat_eq, inl,
}
use trading_gateway.Base.Map.{lookup, insert}
use trading_gateway.Acks.{
  EventAckMessage, AckManager, new, mark_acknowledged, mark_acknowledged_internal, send, begin_wait,
  register_pending, end_wait, receive, invalid_ack,
}
use trading_gateway.Acks.Reachable.{
  Call, registers, sends, apply_call, apply_calls, uncleared, mark_acknowledged-clears,
}
use trading_gateway.Acks.Waits.{EndsWith, oldest, others, wait_for_ack-takes_oldest}

abbrev naming : List String → EventAckMessage
naming ids = record { correlation_id = "c"; events_processed = ids; timestamp = 5 }

-- Two connections, and a message that was left over.
abbrev calls : List Call
calls =
    registers "conn1" ("e1" ∷ "e2" ∷ [])
    ∷ registers "conn2" ("e3" ∷ [])
    ∷ sends (naming ("e0" ∷ []))
    ∷ []

abbrev started : AckManager
started = apply_calls calls new

-- Naming one event clears the other one, too.
mark_acknowledged-clears_example :
    lookup "conn1" (mark_acknowledged (naming ("e1" ∷ [])) started).pending_acks
    ≡ uncleared ("e1" ∷ []) (lookup "conn1" started.pending_acks)
mark_acknowledged-clears_example = mark_acknowledged-clears calls (naming ("e1" ∷ [])) "conn1"

other_cleared : lookup "conn1" (mark_acknowledged (naming ("e1" ∷ [])) started).pending_acks ≡ none
unfolding apply_calls apply_call new register_pending send mark_acknowledged
    mark_acknowledged_internal lookup insert
other_cleared = refl

-- An acknowledgment that names no event clears every connection.
empty_clears : (mark_acknowledged (naming []) started).pending_acks ≡ []
unfolding apply_calls apply_call new register_pending send mark_acknowledged
    mark_acknowledged_internal lookup insert
empty_clears = refl

there : started.has_receiver ≡ true
unfolding apply_calls apply_call new register_pending send
there = refl

wait_for_ack-takes_oldest_example :
    EndsWith
      ("e3" ∷ [])
      (oldest started.channel (naming ("e3" ∷ [])))
      (others started.channel (naming ("e3" ∷ [])))
      (mark_acknowledged (naming ("e3" ∷ [])) (begin_wait started).1)
wait_for_ack-takes_oldest_example =
    wait_for_ack-takes_oldest ("e3" ∷ []) (naming ("e3" ∷ [])) started there

-- The message that was left over answers the wait, which fails although its event is acknowledged.
left_over :
    Option.map
      (λ r. r.0)
      (end_wait ("e3" ∷ []) (mark_acknowledged (naming ("e3" ∷ [])) (begin_wait started).1))
    ≡ some (inl (invalid_ack "ACK doesn't match expected events"))
unfolding apply_calls apply_call new register_pending send mark_acknowledged
    mark_acknowledged_internal begin_wait end_wait receive
left_over = refl
