-- ===== src/Lib.antt =====
-- The core of the trading gateway: the exit orders that it places as entry orders fill, the breakers
-- that halt trading after repeated failures, and the acknowledgments that drive the simulation engine.
--
-- Parts and files. Models.antt and its children are the vocabulary of crates/core/src/models,
-- crates/core/src/error.rs and crates/core/src/adapter/mod.rs: sides, orders, requests, errors with
-- their texts, the validation of order requests (Validation, `validate_semantics`), and the adapter
-- calls as functions on a state of the broker. Decimals are the record
-- `Decimal` of Base/Decimal.antt: rust_decimal is not part of the repository, and its documented laws
-- are the fields of the record.
--
-- Exit.antt and its children are crates/core/src/exit_management. Types: types.rs. Ids: placeholder ids
-- (`generate_placeholder_id`, `parse_placeholder_id`). Coverage: coverage.rs. Breaker: circuit_breaker.rs,
-- with its sliding window in Breaker/Window. Handler, Index and Registration: handler.rs, the state
-- `ExitHandler` as the record `Handler` with its two concurrent maps, the secondary index, `register`,
-- `register_preemptive`, `activate_backup` and `cancel_backup`. Cancellation: cancellation.rs. Placement,
-- Fill and FillEvents: fill_handler.rs, from the retries of one order over the processing of one exit
-- entry to the fills of entry orders, of exit legs, and of orders that are not registered yet. Replace:
-- replace.rs, moving the resting orders of a leg to another price.
--
-- State.antt is crates/core/src/state/mod.rs, the caches of orders, positions and OCO groups
-- (`StateManager`).
--
-- Reconnection.antt is crates/core/src/websocket/reconnection.rs, the backoff between attempts to reconnect.
--
-- Subscription.antt is crates/core/src/subscription/filter.rs, which events are forwarded
-- (`SubscriptionFilter::new`, `matches`), with the specification in Subscription/Growth
-- and Subscription/Meaning.
--
-- Acks.antt is crates/core/src/websocket/ack.rs, the acknowledgments that are pending on each connection
-- (`AckManager`); `wait_for_ack` is `begin_wait`, and later `end_wait` or `time_out`.
--
-- Trailing.antt and its children are crates/core/src/trailing_stop. Types: types.rs. Surroundings: the
-- traits of executor.rs and price_source.rs, any functions on a state of the world. Handler, Orders,
-- Prices, Activation and Recovery: handler.rs, the state `TrailingStopHandler` as the record `Handler`,
-- registration and cancellation, the stop order at the broker, price updates, the start of tracking, and
-- the recovery scan. Machine: the state machine of an entry as a step relation, which also has the
-- moves of the code that the diagram in types.rs leaves out, and the operations as commands; Peaks: the
-- peak of an entry under the commands. The tracking task of a symbol is its reference count; what other
-- tasks do while a call is awaited is a function, `meanwhile`.
--
-- Dedupe.antt is crates/oanda/src/dedupe.rs, claiming published transaction ids once
-- (`PublishedTransactions`); Dedupe/Window relates it to the history of all claims.
--
-- CircuitBreaker.antt is crates/core/src/circuit_breaker.rs, the breaker of an adapter. AckBridge.antt is
-- crates/tektii/src/ack_bridge.rs, the queue between the strategy's acknowledgments and the engine.
--
-- How the parts interact. A submitted order registers its exits with the handler; a fill of the order
-- finds them through the index, and places them through the adapter, unless the exit breaker is open;
-- a fill of an exit leg removes its entry and cancels the orders of the sibling; closing a position
-- and cancelling an entry order end the entries. `IsConsistent` (Exit/Invariant) is what the two maps of
-- the handler have to agree on between these steps.
--
-- Conventions. Concurrent maps are association lists, read through `lookup`; iterating lists the keys.
-- Every access to a map is a step of its own, and the lock of fill processing makes `handle_fill` one
-- step but for the argument `meanwhile`, which stands for what other tasks do between the lookup of the
-- exits and the buffering of a fill. The state of the broker tells the time and changes when the
-- handler sleeps. Times are natural numbers of milliseconds. Retry counts are u32 and saturate;
-- a reconnection delay is a u64 and wraps; version counters and the attempts to reconnect are taken as
-- unbounded.
--
-- Fuel. Loops recurse on their lists, and the retry loop on the number of attempts that are left, which
-- starts at the number of delays plus one, as in the source; more attempts make no difference
-- (Exit/Placement/Enough). Only the decimal digits of a number are printed on fuel, one
-- more than the number, which is at least the number of its digits.
--
-- Not modelled: logging and metrics; the derived Debug text of a status, an argument `describe`; letters
-- outside ASCII in `to_lowercase`; JSON details of errors; the
-- tasks that feed price updates to a trailing stop handler. The event router, the rest of the websocket layer, the REST surface and the
-- brokers' adapters are left out.
pub mod AckBridge
pub mod Acks
pub mod Base
pub mod CircuitBreaker
pub mod Dedupe
pub mod Exit
pub mod Models
pub mod Reconnection
pub mod Samples
pub mod State
pub mod Subscription
pub mod Trailing
