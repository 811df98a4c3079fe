-- ===== src/Server/Tools/Builtin.antt =====
-- server/tools_register.go: the tools that are built in, with the names of their specifications.
use neo4j_mcp_canary.Prelude.{Bool, true, false, List, [], ◌∷◌}
use neo4j_mcp_canary.Text.{codes}
use neo4j_mcp_canary.Server.Tools.{
  ToolDefinition, category_cypher, category_gds, category_feedback, category_search, category_graph,
  category_traversal, category_patterns,
}
use neo4j_mcp_canary.Text.{Str}

abbrev tool : Str → Str → Bool → ToolDefinition
tool category name readonly = record { category = category; name = name; readonly = readonly }

-- builtinToolsDefs
abbrev pub builtin_tools_defs : List ToolDefinition
builtin_tools_defs =
    tool category_cypher (codes "get-schema") true
    ∷ tool category_cypher (codes "read-cypher") true
    ∷ tool category_cypher (codes "write-cypher") false
    ∷ tool category_cypher (codes "explain-cypher") true
    ∷ tool category_cypher (codes "profile-cypher") false
    ∷ tool category_cypher (codes "list-constraints-and-indexes") true
    ∷ tool category_cypher (codes "create-constraint") false
    ∷ tool category_cypher (codes "drop-constraint") false
    ∷ tool category_cypher (codes "create-index") false
    ∷ tool category_cypher (codes "drop-index") false
    ∷ tool category_gds (codes "list-gds-procedures") true
    ∷ tool category_feedback (codes "give-feedback") true
    ∷ tool category_search (codes "vector-search") true
    ∷ tool category_search (codes "fulltext-search") true
    ∷ tool category_search (codes "create-vector-index") false
    ∷ tool category_search (codes "create-fulltext-index") false
    ∷ tool category_search (codes "set-vector-property") false
    ∷ tool category_search (codes "check-embedding-dimensions") true
    ∷ tool category_graph (codes "create-node") false
    ∷ tool category_graph (codes "find-nodes") true
    ∷ tool category_graph (codes "get-node") true
    ∷ tool category_graph (codes "update-node") false
    ∷ tool category_graph (codes "delete-node") false
    ∷ tool category_graph (codes "count-nodes") true
    ∷ tool category_graph (codes "create-relationship") false
    ∷ tool category_graph (codes "find-relationships") true
    ∷ tool category_graph (codes "update-relationship") false
    ∷ tool category_graph (codes "delete-relationship") false
    ∷ tool category_traversal (codes "traverse") true
    ∷ tool category_traversal (codes "expand-neighbors") true
    ∷ tool category_traversal (codes "find-shortest-path") true
    ∷ tool category_traversal (codes "find-all-paths") true
    ∷ tool category_patterns (codes "match-pattern") true
    ∷ tool category_patterns (codes "find-common-connections") true
    ∷ tool category_patterns (codes "find-motif") true
    ∷ tool category_patterns (codes "find-relationship-chain") true
    ∷ tool category_patterns (codes "find-subgraph") true
    ∷ []
