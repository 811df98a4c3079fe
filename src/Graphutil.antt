-- ===== src/Graphutil.antt =====
-- internal/tools/graphutil: the building blocks of the graph tools.
pub mod Value
pub mod Error
pub mod Builder
pub mod Quote
pub mod Sort
pub mod Filters
pub mod NodeRef
pub mod Limits
pub mod Projection
pub mod Query
pub mod Erase
pub mod Success
pub mod Sequential
