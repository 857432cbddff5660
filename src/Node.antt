-- ===== src/Node.antt =====
-- packages/node: the node's storage, handlers and background work.
pub mod Storage
pub mod Memory
pub mod Error
pub mod State
pub mod Handlers
pub mod RateLimit
pub mod PeerDiscovery
pub mod Federation
pub mod Sqlite
pub mod Auth
pub mod Identity
pub mod Config
pub mod Start
