-- ===== src/Lib.antt =====
-- yog-sothoth: the path of a transaction from the Geyser stream to the consumer, the arithmetic of
-- prices and fees, the plan of an analytic cycle, and the HTTP API's cursors, live pollers, windows and
-- credentials.
--
-- The indexer (crates/indexer) subscribes to a gRPC stream of transactions, block-metas and slot
-- statuses. A transaction carries no time, and a slot can have several banks of which the cluster
-- keeps one; so each transaction waits until its slot's kept bank and that bank's time are known, and
-- only then goes down a channel to the consumer. Around that stands a listener that reconnects under
-- a retry budget, and a recorder that writes, a period late, which slots were received for good.
--
-- Grpc/Buffer models crates/indexer/src/infra/grpc/slot_timestamp_buffer.rs and its directory: Banks
-- is bank.rs, Known is known_slots.rs, Waiting is waiting_slots.rs. A BTreeMap is the sorted
-- association list of Prelude/Map, and the process-wide counters of metrics.rs are a field of the
-- waiting slots. The loop of enforce_bounds runs on fuel, one round for each slot that waits: each
-- round takes one slot out, so the fuel is enough. Run is a session's messages one after another.
--
-- Grpc/Session models crates/indexer/src/infra/grpc/session.rs and its directory: Progress is
-- slot_progress.rs, Received and Span are received_slots.rs and received_span.rs, Deliveries is
-- delivery.rs, and Grpc/Ranges is ranges_to_record.rs, the map that the sessions share with the
-- recorder, passed in and returned. `handle` takes one update, `handle_all` a stream of them. The
-- consumer at the other end of the channel and the server's end of the outbound half answer each offer
-- from outside; from_grpc and chrono's from_timestamp are parameters.
--
-- Grpc/Listener models crates/indexer/src/infra/grpc/listener.rs and, of its directory, ending.rs,
-- retry_budget.rs (Budget), stall_clock.rs (Clock) and the read loop of connector.rs (Reading). What
-- wakes each wait, and what each attempt ends with, comes from outside as a list, so that the loops
-- are recursions on that list and need no fuel. Grpc/Recorder is slots_recorder.rs.
--
-- Rpc models the JSON-RPC path, crates/indexer/src/infra/rpc: Dispatcher is dispatcher.rs with its
-- filters, Worker the retry loop of subscription_worker.rs, Listener the run of listener.rs, and Fleet how
-- its workers end; each loop runs over a list of what the outside does.
--
-- Signals models a tick of crates/signals/src/application/workers/signal_engine.rs, which emits what a
-- detector finds unless the pool was signalled as severely within the cooldown. Shutdown is how that
-- engine's tasks are watched and drained, over the list of what joins before the stop and after it.
-- Detectors has the three detectors of application/detectors, over a record of what rust_decimal
-- offers: a pool that is looked at is passed over, skipped with a reason, signalled, or a panic. Alarm
-- is application/workers/materialization_alarm.rs: the verdict of a check, what the heartbeat is told,
-- and when the log speaks.
--
-- Domain holds what crates/core/src/domain has that more than one part uses: Protocols, Announcements,
-- LiquidityMoves and Windows are its tags and windows, Verdicts its freshness and lateness, ApiKey the
-- form of a key, Cursors the keys of its paginated lists, and Cycle the plan of an analytic cycle,
-- analytic/model.rs. In the indexer's parts an instant and a duration are numbers of one unit; in
-- Domain and Api they are numbers of nanoseconds, an instant's since 1970. A program id is a number.
--
-- Api models crates/api/src. Api/Cursor is http/cursor.rs: Tags, Encode and Decode, over the structs of
-- Wire, where serde_json with base64 is the parameter Codec and the printers of times, decimals, keys
-- and signatures are the parameter External of Domain/Cursors, each with what it documents. Lists and
-- Refusal gather the decoders by the list that each serves. Api/Live is application/live: Watermark and
-- Poller, whose ticks, with what the table answers at each, come from outside as a list; the outer loop
-- of `settle` runs on fuel, one round for each id delivered and one more. Api/Periods is
-- application/services/period.rs, and Api/Auth is application/auth, where SHA-256 is a parameter.
--
-- Amm models crates/core/src/amm: common.rs, damm_v2.rs (Fees) and dlmm.rs, with the checked
-- operations of Rust's integers in Prelude/Machine, and a division by zero as a panic. The loop of
-- `pow` runs on fuel, 19 rounds, one for each bit below MAX_EXPONENTIAL.
--
-- Not modelled: logging and the export of metrics; dialling, TLS and the subscribe call; floating
-- point (sqrt_price_to_price_a_in_b); the fetch of a transaction over JSON-RPC and the decoders; of the
-- HTTP API the routes, the services and the data transfer objects; the SQL repositories and the web front
-- end, which stand around these parts.
pub mod Amm
pub mod Api
pub mod Domain
pub mod Grpc
pub mod Prelude
pub mod Rpc
pub mod Signals
pub mod Tests
