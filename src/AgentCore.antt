-- ===== src/AgentCore.antt =====
-- packages/agent-core: what an agent needs to reach nodes.
pub mod Address
pub mod Session
