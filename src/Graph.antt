-- ===== src/Graph.antt =====
-- internal/tools/graph: the tools that read and change nodes and relationships.
pub mod Common
pub mod RelRef
pub mod Reads
pub mod Nodes
pub mod Relationships
pub mod Values
pub mod Selection
pub mod Narrowing
pub mod Wording
pub mod Guards
