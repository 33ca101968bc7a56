-- ===== src/Acks/Waits.antt =====
-- How `wait_for_ack` of crates/core/src/websocket/ack.rs ends.
use trading_gateway.Base.{
  String, true, some, refl, Bool-cases, List, [], ◌∷◌, ◌++◌, if◌then◌else◌, ◌≡◌, ◌⊎◌, inl, inr,
  string_eq, nat_eq,
}
use trading_gateway.Acks.{
  EventAckMessage, AckManager, WebSocketError, invalid_ack, matched, mark_acknowledged_internal,
  send, mark_acknowledged, begin_wait, receive, end_wait,
}

-- The messages of a channel that gets one more: the first, and those after it.
abbrev pub oldest : List EventAckMessage → EventAckMessage → EventAckMessage
oldest [] ack = ack
oldest (first ∷ rest) ack = first

abbrev pub others : List EventAckMessage → EventAckMessage → List EventAckMessage
others [] ack = []
others (first ∷ rest) ack = rest ++ ack ∷ []

-- The manager after a wait that was answered by a message.
pub record IsAnswered (expected : List String) (told : EventAckMessage)
    (rest : List EventAckMessage) (before after : AckManager) : Type 0 where
  pub has_receiver : after.has_receiver ≡ true
  pub channel : after.channel ≡ rest
  pub pending_acks : after.pending_acks ≡ (
      if matched expected told.events_processed
      then (mark_acknowledged_internal told.events_processed before).pending_acks
      else before.pending_acks)

abbrev pub answer : List String → EventAckMessage → WebSocketError ⊎ EventAckMessage
answer expected told =
    if matched expected told.events_processed
    then inr told
    else inl (invalid_ack "ACK doesn't match expected events")

-- A wait that ends as its manager is answered.
abbrev pub EndsWith : List String → EventAckMessage → List EventAckMessage → AckManager → Type 0
EndsWith expected told rest m =
    (after : AckManager) × (end_wait expected m ≡ some (answer expected told, after))
    × IsAnswered expected told rest m after

receive-answers :
    (expected : List String) (told : EventAckMessage) (rest : List EventAckMessage) (m : AckManager)
    → m.channel ≡ told ∷ rest
    → EndsWith expected told rest m
unfolding end_wait receive mark_acknowledged_internal
receive-answers expected told rest m is =
    elim (Bool-cases (matched expected told.events_processed)) [
      | inl fits ↦
          rw (is, fits)
            (_, refl, record { has_receiver = refl; channel = refl; pending_acks = rw (fits) refl })
      | inr unfit ↦
          rw (is, unfit)
            (
              _,
              refl,
              record { has_receiver = refl; channel = refl; pending_acks = rw (unfit) refl },
            )
    ]

queued :
    (messages : List EventAckMessage) (ack : EventAckMessage)
    → messages ++ ack ∷ [] ≡ oldest messages ack ∷ others messages ack
queued [] ack = refl
queued (first ∷ rest) ack = refl

-- A wait that begins while the receiver is there, and during which an acknowledgment is marked, is
-- answered by the oldest message of the channel, which is another one where messages were left over:
-- with the message if it names every expected event, whose events are then marked, and with an error
-- otherwise. The message is gone, and the receiver is there again, in both cases.
pub wait_for_ack-takes_oldest :
    (expected : List String) (ack : EventAckMessage) (m : AckManager)
    → m.has_receiver ≡ true
    → EndsWith expected
        (oldest m.channel ack)
        (others m.channel ack)
        (mark_acknowledged ack (begin_wait m).1)
unfolding begin_wait mark_acknowledged mark_acknowledged_internal send
wait_for_ack-takes_oldest expected ack m there =
    receive-answers expected (oldest m.channel ack) (others m.channel ack)
      (mark_acknowledged ack (begin_wait m).1) (rw (there) (queued m.channel ack))
