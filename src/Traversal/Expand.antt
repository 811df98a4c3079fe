-- ===== src/Traversal/Expand.antt =====
-- traversal/expand_neighbors.go
use neo4j_mcp_canary.Prelude.{List, [], ◌∷◌, ◌++◌, Option, none, some, ℤ, pos}
use neo4j_mcp_canary.Text.{Str, codes, concat}
use neo4j_mcp_canary.Graphutil.Value.{int}
use neo4j_mcp_canary.Graphutil.Error.{Result, context}
use neo4j_mcp_canary.Graphutil.Builder.{Build, ◌>>=◌, ◌>>◌, pure, lift, param, wrapping}
use neo4j_mcp_canary.Graphutil.Quote.{type_expr, where_clause}
use neo4j_mcp_canary.Graphutil.NodeRef.{NodeRef, empty_ref, pattern_of}
use neo4j_mcp_canary.Graphutil.Limits.{int_in_range, single_rel, both}
use neo4j_mcp_canary.Graphutil.Projection.{node_summary, props_expr}
use neo4j_mcp_canary.Graphutil.Query.{Query, Draft, read_draft, run_build}
use neo4j_mcp_canary.Traversal.Common.{resolve_direction, require_node}

pub record ExpandNeighborsInput : Type 0 where
  pub start : NodeRef
  pub relationship_types : List Str
  pub direction : Str
  pub neighbor : Option NodeRef
  pub node_properties : List Str
  pub relationship_properties : List Str
  pub limit : ℤ

-- `ref := NodeRef{}; if p != nil { ref = *p }`
abbrev pub or_empty : Option NodeRef → NodeRef
or_empty none = empty_ref
or_empty (some r) = r

-- `relExpr`
unfoldable pub rel_expr : List Str → Str
rel_expr [] =
    codes
      "{id: elementId(r), type: type(r), direction: CASE WHEN startNode(r) = s THEN 'OUTGOING' ELSE 'INCOMING' END}"
rel_expr (p ∷ props) = concat (
    codes
      "{id: elementId(r), type: type(r), direction: CASE WHEN startNode(r) = s THEN 'OUTGOING' ELSE 'INCOMING' END"
    ∷ codes ", properties: "
    ∷ props_expr (codes "r") (p ∷ props)
    ∷ codes "}"
    ∷ [])

unfoldable pub expand_body : ExpandNeighborsInput → Build Draft
expand_body input =
    lift (require_node (codes "start") input.start)
    >> (lift (resolve_direction input.direction both) >>= λ direction.
        lift (int_in_range (codes "limit") input.limit (pos 25) (pos 1) (pos 200)) >>= λ limit.
        lift (type_expr input.relationship_types) >>= λ types.
        lift (single_rel direction (codes "r") types) >>= λ rel.
        wrapping (context (codes "start")) (pattern_of input.start (codes "s")) >>= λ start.
        wrapping (context (codes "neighbor")) (pattern_of (or_empty input.neighbor) (codes "n"))
        >>= λ neighbor. param (int limit) >>= λ l. pure (
            read_draft (
              concat (
                codes "MATCH "
                ∷ start.0
                ∷ rel
                ∷ neighbor.0
                ∷ where_clause (start.1 ++ neighbor.1)
                ∷ codes "\nRETURN elementId(s) AS startId, "
                ∷ rel_expr input.relationship_properties
                ∷ codes " AS relationship, "
                ∷ node_summary (codes "n") input.node_properties
                ∷ codes " AS neighbor\nLIMIT "
                ∷ l
                ∷ []))))

-- buildExpandNeighbors
unfoldable pub build_expand_neighbors : ExpandNeighborsInput → Result Query
unfolding expand_body
build_expand_neighbors input = run_build (expand_body input)
