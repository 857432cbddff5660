-- ===== src/Core.antt =====
-- packages/core: the unit types, validation and the graph.
pub mod Types
pub mod Validation
pub mod Graph
