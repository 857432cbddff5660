-- ===== src/Node/Handlers.antt =====
-- packages/node/src/handlers: the requests that the node answers.
pub mod Units
pub mod Agents
pub mod Follows
pub mod Peers
pub mod Remote
pub mod Discovery
pub mod WebFinger
