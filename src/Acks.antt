-- ===== src/Acks.antt =====
-- crates/core/src/websocket/ack.rs: the acknowledgments that are pending on each connection, and waiting
-- for one. The unbounded channel is the list of the messages in it. A wait is two steps, taking the
-- receiver and ending; other calls may come between them. It is not dropped half way.
pub mod Reachable
pub mod Waits
use trading_gateway.Exit.Index.{member}
use trading_gateway.Base.{
  ℕ, ◌+◌, ◌-◌, ◌*◌, ◌≤◌, ◌<◌, String, ◌⧺◌, Bool, true, false, ◌&&◌, ◌||◌, not, Option, none, some,
  List, [], ◌∷◌, ◌++◌, all, retain, length, map, ◌==◌, string_eq, nat_eq, if◌then◌else◌, ◌≡◌, ◌⊎◌,
  inl, inr,
}
use trading_gateway.Base.Map.{Map, insert, remove, values}

-- `EventAckMessage` of crates/core/src/websocket/messages.rs
pub record EventAckMessage : Type 0 where
  pub correlation_id : String
  pub events_processed : List String
  pub timestamp : ℕ

-- `WebSocketError` of crates/core/src/websocket/error.rs, the serialization error by its text
pub data WebSocketError : Type 0 where
  connection_failed invalid_ack ack_timeout connection_closed connection_not_found message_error
        provider_error permanent_auth_error config_error send_error receive_error invalid_input
        serialization_failed other :
      String → WebSocketError

pub record AckManager : Type 0 where
  pub pending_acks : Map String (List String)
  pub channel : List EventAckMessage
  pub has_receiver : Bool

unfoldable pub new : AckManager
new = record { pending_acks = []; channel = []; has_receiver = true }

unfoldable pub register_pending : String → List String → AckManager → AckManager
register_pending conn_id event_ids m = record m {
  pending_acks = insert conn_id event_ids m.pending_acks;
}

-- Every acknowledged event is pending on the connection.
abbrev pub matched : List String → List String → Bool
matched event_ids pending_event_ids = all (λ ack_id. member ack_id pending_event_ids) event_ids

unfoldable pub mark_acknowledged_internal : List String → AckManager → AckManager
mark_acknowledged_internal event_ids m = record m {
  pending_acks = retain (λ entry. not (matched event_ids entry.1)) m.pending_acks;
}

-- A message sent through `get_sender`
unfoldable pub send : EventAckMessage → AckManager → AckManager
send ack m = record m { channel = m.channel ++ ack ∷ [] }

unfoldable pub mark_acknowledged : EventAckMessage → AckManager → AckManager
mark_acknowledged ack m = send ack (mark_acknowledged_internal ack.events_processed m)

unfoldable pub clear_connection : String → AckManager → AckManager
clear_connection conn_id m = record m { pending_acks = remove conn_id m.pending_acks }

-- `Iterator::sum`
abbrev total : List ℕ → ℕ
total [] = 0
total (n ∷ ns) = n + total ns

unfoldable pub pending_count : AckManager → ℕ
pending_count m = total (map length (values m.pending_acks))

-- The beginning of `wait_for_ack`: taking the receiver, if it is there
unfoldable pub begin_wait : AckManager → (WebSocketError ⊎ Unit {0}) × AckManager
begin_wait m =
    if m.has_receiver
    then (inr tt, record m { has_receiver = false })
    else (inl (other "ACK receiver already taken"), m)

abbrev pub restore : AckManager → AckManager
restore m = record m { has_receiver = true }

-- The wait ends by its timeout, whose text is given.
unfoldable pub time_out : String → AckManager → (WebSocketError ⊎ EventAckMessage) × AckManager
time_out shown m = (inl (ack_timeout ("No ACK received within " ⧺ shown)), restore m)

-- The wait ends by a message, the first of the channel.
unfoldable pub receive :
    List String → EventAckMessage → AckManager → (WebSocketError ⊎ EventAckMessage) × AckManager
receive expected_event_ids ack m =
    if matched expected_event_ids ack.events_processed
    then (inr ack, restore (mark_acknowledged_internal ack.events_processed m))
    else (inl (invalid_ack "ACK doesn't match expected events"), restore m)

-- Nothing is received while the channel is empty.
abbrev pub receive_next :
    List String
    → List EventAckMessage
    → AckManager
    → Option ((WebSocketError ⊎ EventAckMessage) × AckManager)
receive_next expected_event_ids [] m = none
receive_next expected_event_ids (ack ∷ rest) m =
    some (receive expected_event_ids ack (record m { channel = rest }))

unfoldable pub end_wait :
    List String → AckManager → Option ((WebSocketError ⊎ EventAckMessage) × AckManager)
end_wait expected_event_ids m = receive_next expected_event_ids m.channel m
