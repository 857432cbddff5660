-- ===== src/Node/Sqlite/Refines.antt =====
-- packages/node/src/storage/sqlite.rs against memory.rs.
pub mod Order
pub mod Rows
pub mod Agree
pub mod Units
pub mod Agents
pub mod Contributions
pub mod Follows
pub mod Peers
pub mod Settings
pub mod Calls
