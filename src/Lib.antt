-- ===== src/Lib.antt =====
-- SemanticWeft: models of the Rust crates under packages/, and what is proved of them.
--
-- The program is a federated store of semantic units. packages/core defines the unit, its
-- validation and an in-memory graph; packages/node-api the bodies of requests and responses;
-- packages/node the server: storage, handlers, a rate limiter, and two background jobs that pull
-- peers and units from other nodes. A request reaches a handler through the limiter and the
-- signature check, the handler decides who may see or write what and calls the storage, and a
-- submitted unit goes on to the inboxes of its recipients and to the subscribers.
--
-- Files and code:
--   Prelude: shared names; Prelude/Tests Boolean tests and `Result`, Prelude/Text Rust's order of
--     strings, Prelude/Lists and Prelude/Map lists and association lists (`HashMap`, and `BTreeMap`
--     with its keys in order), Prelude/Action methods on shared state that may fail.
--   Platform: what the crates take from elsewhere (floating point, JSON values, the UUID and date
--     parsers, formatting), as a record of operations with no law assumed.
--   Core/Types, Core/Validation, Core/Graph: packages/core/src/types.rs, validation.rs, graph.rs.
--     `bfs` is `Graph::bfs` with its visited set, queue and result as a record; Core/Types/Names has
--     `Display` and `FromStr`, Core/Types/Equality the derived `PartialEq`, and
--     Core/Validation/Extension the regular expression of extension names as an automaton.
--     Core/Validation/Specified has the ids and the fields of spec/semantic-unit.md and its schema, which
--     are stricter than the checks of validation.rs.
--   AgentCore/Address, AgentCore/Session: packages/agent-core/src/address.rs and session.rs.
--   NodeApi: packages/node-api/src.
--   Node/Identity, Node/Config, Node/Start: packages/node/src/identity.rs, config.rs and what main.rs
--     does with both; the cryptography, the environment and the parsers of `SocketAddr` and `f32` are
--     parameters, the parsers of unsigned numbers are written out.
--   Node/Storage, Node/Memory: packages/node/src/storage/mod.rs and memory.rs. `Storage` is the trait,
--     a record of methods that may fail; `Inner` is the struct behind the lock of the in-memory
--     storage, and each method is one function on it.
--   Node/Sqlite: packages/node/src/storage/sqlite.rs. The tables are lists of rows, a statement is its
--     effect on them, or fails where the list of outcomes in `Connection` says so; the orders that
--     `ORDER BY` asks for are computed. Node/Sqlite/Refines compares it with Node/Memory.
--   Node/Auth: packages/node/src/middleware/auth.rs. `Library` stands for the cryptography, base58, the
--     clock and the date parsers, `Parts` for a request with its headers; Node/Auth/Header is the
--     parser of the `Signature` header, Node/Auth/Outbound the header that a node sends.
--   Node/Error, Node/State: packages/node/src/error.rs, config.rs and handlers/mod.rs. What a handler
--     sends to subscribers or spawns is kept in the state, in order. `AppState` holds the in-memory
--     storage where the source has `Arc<dyn Storage>`: its reads never fail, so that in the handlers
--     on `AppState`, in Node/Federation and in Node/Handlers/Remote the answers to a failing storage
--     are written out but not reached. `list`, local fan-out and peer discovery take any `Storage`.
--   Node/Handlers: packages/node/src/handlers/units.rs, agents.rs, follows.rs, peers.rs,
--     node.rs and webfinger.rs. Node/Handlers/Remote is the fan-out to other nodes, whose answers to
--     discovery and to deliveries are the parameter `Internet`; a delivery makes at most three
--     attempts.
--   Node/RateLimit: packages/node/src/middleware/rate_limit.rs, `check` at a given instant.
--   Node/PeerDiscovery, Node/Federation: packages/node/src/peer_discovery.rs and federation.rs, with
--     the answers of other nodes as a parameter. Node/Federation/Serve has the answers of a node that
--     runs the handler `sync`.
--   Tests: a concrete platform and examples.
--
-- Bounds and fuel: `bfs_loop` is given one step more than the graph has units, which is enough
-- because a unit enters the queue at most once. `sync_peer` takes its fuel as an argument, since a
-- remote node may always claim to have more; against a node that runs `sync`, each page but the
-- last is full, so that one step more than there are units left is enough. `u32` counts wrap at
-- 2 ^ 32.
--
-- Not modelled: the migration of older SQLite databases, the proofs of units in
-- packages/core/src/signing.rs (the check is a parameter of `submit`), the event stream of `sync`,
-- rendering, the command line, the WebAssembly bindings and the wiring of the server (I/O), and the
-- identity of packages/agent-core, which is third-party cryptography.
pub mod Prelude
pub mod Platform
pub mod Core
pub mod AgentCore
pub mod NodeApi
pub mod Node
pub mod Tests
