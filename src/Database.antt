-- ===== src/Database.antt =====
-- internal/database: the driver service.
pub mod Version
pub mod Streaming
pub mod Keyword
pub mod Classify
