-- ===== src/Cypher.antt =====
-- internal/tools/cypher: the tools that run a caller's own statements.
pub mod ReadCypher
pub mod WriteCypher
pub mod SchemaDdl
pub mod SchemaDrop
