-- ===== src/Lib.antt =====
-- Hackline connects devices behind NAT to a gateway over a Zenoh network. This library models the
-- part of it that decides: what the gateway stores, whom it serves and what it sends.
--
-- The program's parts. A device and the gateway meet in key expressions that name an organisation,
-- a device and a purpose (crates/hackline-proto/src/keyexpr.rs). Devices publish events and logs,
-- which the fan-in (crates/hackline-gateway/src/msg_fanin.rs) checks, stores in rings of bounded
-- size (db/events.rs, db/logs.rs) and puts on a bus for live readers. Operators send commands by
-- HTTP (api/cmd), which go to a durable outbox (db/cmd_outbox.rs); the delivery tasks
-- (cmd_delivery.rs) publish what is due and record what devices acknowledge. Users belong to one
-- organisation and authenticate by a bearer token (auth, db/users.rs); what is done is recorded in
-- an audit trail (db/audit.rs). A tunnel is a public port or host name of the gateway: a connection to
-- it (tunnel/tcp_listener.rs, tunnel/http_router.rs) is bridged over the network to a port of the
-- device's machine (crates/hackline-core/src/bridge.rs). Devices use the message plane through the
-- client library (crates/hackline-client/src/lib.rs).
--
-- Which file models which part, by paths under crates/:
--   Proto/Zid          hackline-proto/src/zid.rs and error.rs: `Zid::new`
--   Proto/Keyexpr      hackline-proto/src/keyexpr.rs: every builder and parser, by its name
--   Proto/Level, Proto/AckResult, Proto/Msg    hackline-proto/src/msg.rs
--   Proto/Uuid         what is used of the `uuid` crate, as a parameter
--   Gateway/Schema     the tables of hackline-gateway/migrations as lists of rows, and the rows of
--                      hackline-gateway/src/db
--   Gateway/Sql        UPDATE, DELETE and rowids on such lists
--   Gateway/Error      hackline-gateway/src/error.rs
--   Gateway/Page       the LIMIT and the cursor of db/*.rs and of the list handlers under api
--   Gateway/Ring, Gateway/Events, Gateway/Logs    db/events.rs and db/logs.rs
--   Gateway/Orgs, Gateway/Devices, Gateway/Users, Gateway/Audit    db/orgs.rs, db/devices.rs,
--                      db/users.rs with auth/middleware.rs and api/users/create.rs, and db/audit.rs
--   Gateway/Middleware the query token of auth/middleware.rs
--   Gateway/Tunnels    db/tunnels.rs, and `create` and `delete` for api/tunnels/create.rs, delete.rs
--   Gateway/HttpRouter tunnel/http_router.rs: `parse_host_header`, `find_double_crlf`, the reads of
--                      `handle_connection` and the tunnel that it finds
--   Gateway/Scope      auth/scope.rs
--   Gateway/Outbox     db/cmd_outbox.rs: `enqueue`, `mark_delivered`, `record_ack`, `cancel` and the
--                      queries, by their names; Outbox/Step makes them the calls of a state machine
--   Gateway/Commands   api/cmd/send.rs, cancel.rs and list.rs: `send`, `cancel_cmd`, `list`
--   Gateway/Delivery   cmd_delivery.rs: `drain_pending`; Delivery/Acks: `handle_ack`; Delivery/Due and
--                      Delivery/Addressed: which rows a pass takes up, and what a row's message is
--   Gateway/Fanin      msg_fanin.rs and events_bus.rs: `handle_sample`
--   Gateway/Liveliness liveliness.rs: `handle_sample`
--   Gateway/Claim      db/claim.rs: `ensure_pending`, `consume`; Claim/Post: api/claim/post.rs
--   Gateway/Metrics, Gateway/RttCache    metrics.rs and rtt_cache.rs
--   Gateway/Session    tunnel/tcp_listener.rs: `run_bridged_connection` as `open_session`, what other
--                      tasks do meanwhile, and `close_session`; Session/Stale: a deleted tunnel
--   Gateway/Manager    tunnel/manager.rs and `list_active_tcp`: the listeners, as a list
--   Gateway/HttpRouter/Bridged    `bridge_with_prefix` and `handle_connection` of tunnel/http_router.rs
--   Gateway/Stream     api/events/stream.rs and api/logs/stream.rs: `glob_match` and the frames
--   Gateway/ApiCall    api/api_call/call.rs: `call` is the handler
--   Gateway/Health     api/devices/health_probe.rs, health.rs and list_health.rs
--   Gateway/AuditView  api/audit/list.rs: `project`, and `list` for the handler
--   Gateway/UserCalls  api/users/mint_token.rs and delete.rs: `mint_token`, `delete_user`
--   Gateway/DeviceCalls    api/devices/create.rs and delete.rs: `create_device`, `delete_device`
--   Gateway/TlsConfig  the TLS block of config.rs: `mode`
--   Gateway/Tls        tls.rs: the files, port 80 and what the listeners serve as `Host`, and the calls on
--                      it that may fail; Tls/Acme: `acquire_and_cache`, `try_renew`, the renewal
--                      rounds; Tls/Init: `init`
--   Core/Pipe          hackline-core/src/bridge.rs: `run_bridge`, the loop that reads as `on_read`, the
--                      loop that writes as `on_sample`, and both with the network as `Step`
--   Core/Bridge        the same file: `accept_bridge` and `initiate_bridge` with the ConnectRequest and
--                      ConnectAck of hackline-proto/src/connect.rs, as lists of actions
--   Client             hackline-client/src/lib.rs: `publish_event`, `publish_log`, `recv`, `ack_with`
--   Agent/Diag         hackline-agent/src/diag/state.rs: `insert_port`, `remove_port`,
--                      `push_connection` and `recent_connections`
--   Agent/Connect      hackline-agent/src/connect.rs, and the handlers of diag/mod.rs on ports
--   Prelude            what these share: text as bytes, `i64` as signed integers, `Result` and the
--                      `?` operator
--   Tests              concrete data, runs, and each theorem at a concrete input
--
-- How code becomes definitions. The database is a record of tables, a table a list of rows with the
-- greatest rowid first; a statement is a function on lists, and a transaction that fails leaves the
-- database as it was. An operation takes the database and returns the new one, or an error. Clocks,
-- random identifiers, tokens and hashes are arguments, and so is what `serde_json` reads and writes.
-- A rowid is a natural number; an id in a request that is negative names no row. Text is the list
-- of its bytes, which is what the `split`, `strip` and comparison calls see.
--
-- Bounds and fuel. `i64` sums that the code saturates are saturated at 2^63 - 1 and -2^63; counters
-- wrap at 2^64. The limits of the code (65536 bytes of a payload, 8192 bytes of a request's head,
-- 1000 commands, 10000 rows, 4096 cache entries, 64 connections, 1000 rows for each page) are
-- constants of the same names or stand in the definitions. Loops are
-- structural, but for two: `digits` prints a number n with fuel n + 1, which is enough since each
-- digit divides by ten, and the client of Page/Complete takes fuel for its requests.
--
-- Concurrency. What the two loops of a bridge and the network do is a relation of single steps, in any
-- order. What other tasks do while a connection is bridged, or while the agent declares a queryable, is
-- an unknown function on the state. The rest is sequential: a handler's statements run one after the
-- other, and where they are not one transaction, what was stored before a failure stays. So are the
-- claims: db/claim.rs reads the pending row before its transaction, and two claims that overlap there
-- are not modelled.
--
-- Parts outside the repository. What the ACME, X.509, PEM and rustls crates answer, and whether a file
-- is written, are fields of `Acme` and `Parsers`; each round of renewal has its own.
--
-- Not modelled: the network session, HTTP extraction and routing, thread and connection pools,
-- subscription and accept loops and the configuration file, which are input and output; the
-- rest of the agent; the command line, the TypeScript client and the web interface, which call the
-- gateway; the text format of the metrics.
pub mod Agent
pub mod Client
pub mod Core
pub mod Prelude
pub mod Proto
pub mod Gateway
pub mod Tests
