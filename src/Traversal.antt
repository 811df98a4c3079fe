-- ===== src/Traversal.antt =====
-- internal/tools/traversal: the read-only traversal tools. Each build function checks its input in
-- the source's order, then writes one statement.
pub mod Common
pub mod Traverse
pub mod Expand
pub mod Paths
pub mod Values
