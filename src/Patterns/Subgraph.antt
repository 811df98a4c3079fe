-- ===== src/Patterns/Subgraph.antt =====
-- patterns/subgraph.go: find-subgraph.
use neo4j_mcp_canary.Prelude.{List, [], ◌∷◌, if◌then◌else◌, ℤ, pos}
use neo4j_mcp_canary.Text.{Str, codes, concat, ◌==s◌}
use neo4j_mcp_canary.Graphutil.Value.{int}
use neo4j_mcp_canary.Graphutil.Error.{Result, require, context, must_select}
use neo4j_mcp_canary.Graphutil.Builder.{Build, ◌>>=◌, ◌>>◌, pure, lift, param, wrapping}
use neo4j_mcp_canary.Graphutil.Quote.{type_expr, where_clause}
use neo4j_mcp_canary.Graphutil.NodeRef.{NodeRef, has_predicate, pattern_of}
use neo4j_mcp_canary.Graphutil.Limits.{int_in_range, quantified_rel, both}
use neo4j_mcp_canary.Graphutil.Projection.{node_summary, rel_summary}
use neo4j_mcp_canary.Graphutil.Query.{Query, Draft, read_draft, run_build}

pub record FindSubgraphInput : Type 0 where
  pub start : NodeRef
  pub relationship_types : List Str
  pub direction : Str
  pub max_depth : ℤ
  pub max_nodes : ℤ
  pub node_properties : List Str

-- `if direction == "" { direction = DirectionBoth }`
abbrev pub or_both : Str → Str
or_both direction = if direction ==s [] then both else direction

unfoldable pub subgraph_text : Str → Str → Str → Str → Str → List Str → Str
subgraph_text start conds reach max_p types props = concat (
    codes "MATCH "
    ∷ start
    ∷ conds
    ∷ codes
        "\nWITH collect(s) AS starts\nCALL (starts) {\n  UNWIND starts AS s\n  MATCH ANY SHORTEST (s)"
    ∷ reach
    ∷ codes
        "(n)\n  RETURN collect(DISTINCT n) AS reached\n}\nCALL (starts, reached) {\n  UNWIND starts + reached AS x\n  WITH collect(DISTINCT x) AS everything\n  RETURN everything[.."
    ∷ max_p
    ∷ codes "] AS ns, size(everything) > "
    ∷ max_p
    ∷ codes " AS truncated\n}\nCALL (ns) {\n  UNWIND ns AS x\n  MATCH (x)-[r"
    ∷ types
    ∷ codes "]->(y)\n  WHERE y IN ns\n  RETURN collect(DISTINCT r) AS rels\n}\nRETURN [x IN ns | "
    ∷ node_summary (codes "x") props
    ∷ codes "] AS nodes, [r IN rels | "
    ∷ rel_summary (codes "r")
    ∷ codes "] AS relationships, size(ns) AS nodeCount, truncated"
    ∷ [])

unfoldable pub subgraph_body : FindSubgraphInput → Build Draft
subgraph_body input =
    lift (require (has_predicate input.start) (must_select (codes "start")))
    >> (lift (int_in_range (codes "maxDepth") input.max_depth (pos 2) (pos 1) (pos 4))
        >>= λ max_depth.
            lift (int_in_range (codes "maxNodes") input.max_nodes (pos 50) (pos 1) (pos 200))
            >>= λ max_nodes. lift (type_expr input.relationship_types) >>= λ types.
                lift (quantified_rel (or_both input.direction) types (pos 1) max_depth) >>= λ reach.
                wrapping (context (codes "start")) (pattern_of input.start (codes "s")) >>= λ start.
                param (int max_nodes) >>= λ n. pure (
                  read_draft (
                    subgraph_text start.0 (where_clause start.1) reach n types
                      input.node_properties)))

-- buildFindSubgraph
unfoldable pub build_find_subgraph : FindSubgraphInput → Result Query
unfolding subgraph_body
build_find_subgraph input = run_build (subgraph_body input)
