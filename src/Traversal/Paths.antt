-- ===== src/Traversal/Paths.antt =====
-- traversal/paths.go
use neo4j_mcp_canary.Prelude.{Bool, List, [], ◌∷◌, if◌then◌else◌, ℤ, pos}
use neo4j_mcp_canary.Text.{Str, codes, concat}
use neo4j_mcp_canary.Graphutil.Value.{int}
use neo4j_mcp_canary.Graphutil.Error.{Result, context}
use neo4j_mcp_canary.Graphutil.Builder.{Build, ◌>>=◌, ◌>>◌, pure, lift, param, wrapping}
use neo4j_mcp_canary.Graphutil.Quote.{type_expr}
use neo4j_mcp_canary.Graphutil.NodeRef.{NodeRef, inline_ref}
use neo4j_mcp_canary.Graphutil.Limits.{int_in_range, quantified_rel, both}
use neo4j_mcp_canary.Graphutil.Projection.{path_map}
use neo4j_mcp_canary.Graphutil.Query.{Query, Draft, read_draft, run_build}
use neo4j_mcp_canary.Traversal.Common.{resolve_direction, resolve_depths, require_node}

pub record FindShortestPathInput : Type 0 where
  pub from : NodeRef
  pub to : NodeRef
  pub relationship_types : List Str
  pub direction : Str
  pub max_depth : ℤ
  pub all_shortest : Bool
  pub node_properties : List Str
  pub limit : ℤ

unfoldable pub shortest_body : FindShortestPathInput → Build Draft
shortest_body input =
    lift (require_node (codes "from") input.from)
    >> (lift (require_node (codes "to") input.to)
        >> (lift (resolve_direction input.direction both) >>= λ direction.
            lift (resolve_depths (pos 1) input.max_depth (pos 6) (pos 15)) >>= λ depths.
            lift (int_in_range (codes "limit") input.limit (pos 5) (pos 1) (pos 50)) >>= λ limit.
            lift (type_expr input.relationship_types) >>= λ types.
            lift (quantified_rel direction types (pos 1) depths.1) >>= λ rel.
            wrapping (context (codes "from")) (inline_ref input.from (codes "a")) >>= λ from.
            wrapping (context (codes "to")) (inline_ref input.to (codes "z")) >>= λ to.
            param (int limit) >>= λ l. pure (
              read_draft (
                concat (
                  codes "MATCH p = "
                  ∷ (if input.all_shortest then codes "ALL SHORTEST" else codes "ANY SHORTEST")
                  ∷ codes " "
                  ∷ from
                  ∷ rel
                  ∷ to
                  ∷ codes "\nWHERE a <> z\nRETURN "
                  ∷ path_map (codes "p") input.node_properties
                  ∷ codes " AS path\nLIMIT "
                  ∷ l
                  ∷ [])))))

-- buildFindShortestPath
unfoldable pub build_find_shortest_path : FindShortestPathInput → Result Query
unfolding shortest_body
build_find_shortest_path input = run_build (shortest_body input)

pub record FindAllPathsInput : Type 0 where
  pub from : NodeRef
  pub to : NodeRef
  pub relationship_types : List Str
  pub direction : Str
  pub min_depth : ℤ
  pub max_depth : ℤ
  pub node_properties : List Str
  pub limit : ℤ

unfoldable pub all_paths_body : FindAllPathsInput → Build Draft
all_paths_body input =
    lift (require_node (codes "from") input.from)
    >> (lift (require_node (codes "to") input.to)
        >> (lift (resolve_direction input.direction both) >>= λ direction.
            lift (resolve_depths input.min_depth input.max_depth (pos 4) (pos 8)) >>= λ depths.
            lift (int_in_range (codes "limit") input.limit (pos 20) (pos 1) (pos 100)) >>= λ limit.
            lift (type_expr input.relationship_types) >>= λ types.
            lift (quantified_rel direction types depths.0 depths.1) >>= λ rel.
            wrapping (context (codes "from")) (inline_ref input.from (codes "a")) >>= λ from.
            wrapping (context (codes "to")) (inline_ref input.to (codes "z")) >>= λ to.
            param (int limit) >>= λ l. pure (
              read_draft (
                concat (
                  codes "MATCH p = "
                  ∷ from
                  ∷ rel
                  ∷ to
                  ∷ codes "\nWHERE a <> z\nRETURN "
                  ∷ path_map (codes "p") input.node_properties
                  ∷ codes " AS path\nORDER BY length(p)\nLIMIT "
                  ∷ l
                  ∷ [])))))

-- buildFindAllPaths
unfoldable pub build_find_all_paths : FindAllPathsInput → Result Query
unfolding all_paths_body
build_find_all_paths input = run_build (all_paths_body input)
