-- ===== src/AckBridge.antt =====
-- crates/tektii/src/ack_bridge.rs: the bridge that forwards the acknowledgments of strategies to
-- the Tektii engine. Each method runs under one write lock, so it is one step on the state; the
-- engine's channel is the list of batches sent so far, and a closed channel drops what is sent.
pub mod Phases
pub mod Refinement
pub mod Conservation
mod Tests
use trading_gateway.Base.{
  ℕ, String, Bool, true, false, Option, none, some, List, [], ◌∷◌, ◌++◌, is_empty, ◌==◌, string_eq,
  if◌then◌else◌,
}

-- `struct PendingEvent`
pub record PendingEvent : Type 0 where
  pub id : String
  pub sent : Bool
  pub acked : Bool

-- `struct TektiiAckBridge` with its `PendingState`; `engine_acks` are the batches that the engine's
-- channel has taken, oldest first, while `engine_open`.
pub record Bridge : Type 0 where
  pub queue : List PendingEvent
  pub engine_acks : List (List String)
  pub engine_open : Bool

-- `TektiiAckBridge::new`
pub new : Bridge
new = record { queue = []; engine_acks = []; engine_open = true }

-- `queue.iter().position(|event| event.id == *id)` and the event at that place.
pub find_event : String → List PendingEvent → Option PendingEvent
find_event id [] = none
find_event id (e ∷ q) = if e.id == id then some e else find_event id q

-- `queue.remove(idx)` at that place.
pub remove_event : String → List PendingEvent → List PendingEvent
remove_event id [] = []
remove_event id (e ∷ q) = if e.id == id then q else e ∷ remove_event id q

-- A write to `queue[idx]` at that place.
pub update_event : String → (PendingEvent → PendingEvent) → List PendingEvent → List PendingEvent
update_event id f [] = []
update_event id f (e ∷ q) = if e.id == id then f e ∷ q else e ∷ update_event id f q

abbrev pub mark_as_sent : PendingEvent → PendingEvent
mark_as_sent e = record e { sent = true }

abbrev pub mark_as_acked : PendingEvent → PendingEvent
mark_as_acked e = record e { acked = true }

-- `engine_ack_tx.send(released)`
pub forward : List String → Bridge → Bridge
forward released b =
    if b.engine_open then record b { engine_acks = b.engine_acks ++ released ∷ [] } else b

pub register_pending : String → Bridge → Bridge
register_pending id b = record b {
  queue = b.queue ++ record { id = id; sent = false; acked = false } ∷ [];
}

-- One round of the loop of `mark_sent`, on the queue and the ids released so far.
pub mark_sent_one : String → List PendingEvent × List String → List PendingEvent × List String
mark_sent_one id (q, released) = elim (find_event id q) [
  | none ↦ (q, released)
  | some event ↦
      let sent = update_event id mark_as_sent q in
      if event.acked then (remove_event id sent, released ++ event.id ∷ []) else (sent, released)
]

pub mark_sent_all : List String → List PendingEvent × List String → List PendingEvent × List String
mark_sent_all [] s = s
mark_sent_all (id ∷ ids) s = mark_sent_all ids (mark_sent_one id s)

-- What both methods do when the loop is over.
pub release : Bridge → List PendingEvent × List String → Bridge
release b (q, released) =
    let emptied = record b { queue = q } in
    if is_empty released then emptied else forward released emptied

pub mark_sent : List String → Bridge → Bridge
mark_sent ids b = if is_empty ids then b else release b (mark_sent_all ids (b.queue, []))

-- One round of the loop of `handle_strategy_ack`.
pub ack_one : String → List PendingEvent × List String → List PendingEvent × List String
ack_one id (q, released) = elim (find_event id q) [
  | none ↦ (q, released)
  | some event ↦
      if event.sent
      then (remove_event id q, released ++ event.id ∷ [])
      else (update_event id mark_as_acked q, released)
]

pub ack_all : List String → List PendingEvent × List String → List PendingEvent × List String
ack_all [] s = s
ack_all (id ∷ ids) s = ack_all ids (ack_one id s)

pub handle_strategy_ack : List String → Bridge → Bridge
handle_strategy_ack ids b = if is_empty ids then b else release b (ack_all ids (b.queue, []))

pub immediate_ack : String → Bridge → Bridge
immediate_ack id b = forward (id ∷ []) b

-- The calls that the gateway makes on the bridge.
pub data Call : Type 0 where
  registers : String → Call
  sends : List String → Call
  acks : List String → Call
  immediates : String → Call

pub step : Call → Bridge → Bridge
step (registers id) b = register_pending id b
step (sends ids) b = mark_sent ids b
step (acks ids) b = handle_strategy_ack ids b
step (immediates id) b = immediate_ack id b

pub run : List Call → Bridge → Bridge
run [] b = b
run (c ∷ cs) b = run cs (step c b)
