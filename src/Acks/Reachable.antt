-- ===== src/Acks/Reachable.antt =====
-- What an acknowledgment clears (crates/core/src/websocket/ack.rs), after any calls of the manager.
use trading_gateway.Base.{
  String, not, ◌&&◌, Option, none, some, refl, arith, Bool-cases, List, [], ◌∷◌, retain, ◌==◌,
  string_eq, nat_eq, if◌then◌else◌, ◌≡◌, inl, inr,
}
use trading_gateway.Base.Map.{Map, insert, remove, lookup, lookup-insert, lookup-remove}
use trading_gateway.Acks.{
  member, true, Bool, EventAckMessage, AckManager, new, register_pending, matched,
  mark_acknowledged_internal, send, mark_acknowledged, clear_connection, begin_wait, time_out,
  receive, receive_next, end_wait,
}

pub data Call : Type 0 where
  registers : String → List String → Call
  acknowledges sends : EventAckMessage → Call
  closes times_out : String → Call
  waits : Call
  receives : List String → Call

abbrev pub ended : {A : Type 0} → AckManager → Option (A × AckManager) → AckManager
ended m none = m
ended m (some (result, m')) = m'

unfoldable pub apply_call : Call → AckManager → AckManager
apply_call (registers conn_id event_ids) m = register_pending conn_id event_ids m
apply_call (acknowledges ack) m = mark_acknowledged ack m
apply_call (sends ack) m = send ack m
apply_call (closes conn_id) m = clear_connection conn_id m
apply_call (times_out shown) m = (time_out shown m).1
apply_call waits m = (begin_wait m).1
apply_call (receives expected) m = ended m (end_wait expected m)

unfoldable pub apply_calls : List Call → AckManager → AckManager
unfolding apply_call
apply_calls [] m = m
apply_calls (c ∷ cs) m = apply_calls cs (apply_call c m)

-- The specification: whether each of the events that are named is pending.
abbrev pub each_pending : List String → List String → Bool
each_pending [] pending = true
each_pending (id ∷ event_ids) pending = member id pending && each_pending event_ids pending

-- What is left of the events of a connection.
abbrev pub uncleared : List String → Option (List String) → Option (List String)
uncleared event_ids none = none
uncleared event_ids (some pending) = if each_pending event_ids pending then none else some pending

matched-each_pending :
    (event_ids pending : List String) → matched event_ids pending ≡ each_pending event_ids pending
matched-each_pending [] pending = refl
matched-each_pending (id ∷ event_ids) pending =
    ground (arith, matched-each_pending event_ids pending)

abbrev IsUnique : Map String (List String) → Type 0
IsUnique [] = Unit
IsUnique ((k, v) ∷ m) = (lookup k m ≡ none) × IsUnique m

abbrev cleared : List String → Map String (List String) → Map String (List String)
cleared event_ids m = retain (λ entry. not (matched event_ids entry.1)) m

lookup-cleared :
    (event_ids : List String) (k : String) (m : Map String (List String))
    → IsUnique m
    → lookup k (cleared event_ids m) ≡ uncleared event_ids (lookup k m)
unfolding lookup
lookup-cleared event_ids k [] u = refl
lookup-cleared event_ids k ((j, v) ∷ m) (gone, u) = ground (
  arith,
  gone,
  matched-each_pending event_ids v,
  lookup-cleared event_ids k m u,
  string_eq.beq_iff j k,
)

cleared-IsUnique :
    (event_ids : List String) (m : Map String (List String))
    → IsUnique m
    → IsUnique (cleared event_ids m)
cleared-IsUnique event_ids [] u = tt
cleared-IsUnique event_ids ((j, v) ∷ m) (gone, u) = elim (Bool-cases (matched event_ids v)) [
  | inl out ↦ rw (out) (cleared-IsUnique event_ids m u)
  | inr stays ↦
      rw (stays)
        (ground (arith, gone, lookup-cleared event_ids j m u), cleared-IsUnique event_ids m u)
]

insert-IsUnique :
    (k : String) (v : List String) (m : Map String (List String))
    → IsUnique m
    → IsUnique (insert k v m)
unfolding insert lookup
insert-IsUnique k v [] u = (refl, tt)
insert-IsUnique k v ((j, w) ∷ m) (gone, u) = elim (Bool-cases (j == k)) [
  | inl same ↦ rw (same) (ground (arith, gone, same, string_eq.beq_iff j k), u)
  | inr differs ↦ rw (differs) (
    ground
        (arith, gone, differs, lookup-insert k j v m, string_eq.beq_iff j k, string_eq.beq_iff k j),
    insert-IsUnique k v m u,
  )
]

remove-IsUnique : (k : String) (m : Map String (List String)) → IsUnique m → IsUnique (remove k m)
unfolding remove
remove-IsUnique k [] u = tt
remove-IsUnique k ((j, w) ∷ m) (gone, u) = elim (Bool-cases (j == k)) [
  | inl same ↦ rw (same) (remove-IsUnique k m u)
  | inr differs ↦ rw (differs) (ground (arith, gone, lookup-remove k j m), remove-IsUnique k m u)
]

receive-IsUnique :
    (expected : List String) (ack : EventAckMessage) (m : AckManager)
    → IsUnique m.pending_acks
    → IsUnique (receive expected ack m).1.pending_acks
unfolding receive mark_acknowledged_internal
receive-IsUnique expected ack m u = elim (Bool-cases (matched expected ack.events_processed)) [
  | inl fits ↦ rw (fits) (cleared-IsUnique ack.events_processed m.pending_acks u)
  | inr unfit ↦ rw (unfit) u
]

ended-IsUnique :
    (expected : List String) (messages : List EventAckMessage) (m : AckManager)
    → IsUnique m.pending_acks
    → IsUnique (ended m (receive_next expected messages m)).pending_acks
ended-IsUnique expected [] m u = u
ended-IsUnique expected (ack ∷ rest) m u =
    receive-IsUnique expected ack (record m { channel = rest }) u

begin_wait-pending : (m : AckManager) → (begin_wait m).1.pending_acks ≡ m.pending_acks
unfolding begin_wait
begin_wait-pending m = ground arith

apply_call-IsUnique :
    (c : Call) (m : AckManager) → IsUnique m.pending_acks → IsUnique (apply_call c m).pending_acks
unfolding apply_call register_pending mark_acknowledged mark_acknowledged_internal send
    clear_connection time_out end_wait
apply_call-IsUnique (registers conn_id event_ids) m u =
    insert-IsUnique conn_id event_ids m.pending_acks u
apply_call-IsUnique (acknowledges ack) m u = cleared-IsUnique ack.events_processed m.pending_acks u
apply_call-IsUnique (sends ack) m u = u
apply_call-IsUnique (closes conn_id) m u = remove-IsUnique conn_id m.pending_acks u
apply_call-IsUnique (times_out shown) m u = u
apply_call-IsUnique waits m u = rw (begin_wait-pending m) u
apply_call-IsUnique (receives expected) m u = ended-IsUnique expected m.channel m u

apply_calls-IsUnique :
    (cs : List Call) (m : AckManager)
    → IsUnique m.pending_acks
    → IsUnique (apply_calls cs m).pending_acks
unfolding apply_calls
apply_calls-IsUnique [] m u = u
apply_calls-IsUnique (c ∷ cs) m u =
    apply_calls-IsUnique cs (apply_call c m) (apply_call-IsUnique c m u)

-- After any calls, an acknowledgment clears all events of a connection if each event that it names
-- is pending there, however many others are, and none otherwise.
pub mark_acknowledged-clears :
    (cs : List Call) (ack : EventAckMessage) (conn_id : String)
    → let m = apply_calls cs new in
      lookup conn_id (mark_acknowledged ack m).pending_acks
      ≡ uncleared ack.events_processed (lookup conn_id m.pending_acks)
unfolding mark_acknowledged mark_acknowledged_internal send new
mark_acknowledged-clears cs ack conn_id =
    let m = apply_calls cs new in
    lookup-cleared ack.events_processed conn_id m.pending_acks (apply_calls-IsUnique cs new tt)
