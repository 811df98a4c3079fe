-- ===== src/Patterns.antt =====
-- internal/tools/patterns: the read-only pattern tools.
pub mod Chain
pub mod Common
pub mod Subgraph
pub mod Motif
pub mod Connected
pub mod MatchPattern
pub mod Values
pub mod MatchValues
pub mod Accepts
