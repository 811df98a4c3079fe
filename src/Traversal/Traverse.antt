-- ===== src/Traversal/Traverse.antt =====
-- traversal/traverse.go
use neo4j_mcp_canary.Prelude.{◌||◌, List, [], ◌∷◌, Option, none, some, if◌then◌else◌, ℤ, pos}
use neo4j_mcp_canary.Text.{Str, codes, concat, ◌==s◌}
use neo4j_mcp_canary.Graphutil.Value.{int}
use neo4j_mcp_canary.Graphutil.Error.{Result, err, context, bad_mode}
use neo4j_mcp_canary.Graphutil.Builder.{Build, ◌>>=◌, ◌>>◌, pure, lift, param, wrapping}
use neo4j_mcp_canary.Graphutil.Quote.{type_expr}
use neo4j_mcp_canary.Graphutil.NodeRef.{NodeRef, inline_ref}
use neo4j_mcp_canary.Graphutil.Limits.{int_in_range, quantified_rel, outgoing}
use neo4j_mcp_canary.Graphutil.Projection.{node_summary, path_map}
use neo4j_mcp_canary.Graphutil.Query.{Query, Draft, read_draft, run_build}
use neo4j_mcp_canary.Traversal.Common.{resolve_direction, resolve_depths, require_node}

pub record TraverseInput : Type 0 where
  pub start : NodeRef
  pub relationship_types : List Str
  pub direction : Str
  pub min_depth : ℤ
  pub max_depth : ℤ
  pub target : Option NodeRef
  pub return_mode : Str
  pub node_properties : List Str
  pub limit : ℤ

-- A pattern that is `default_text` where no reference is given.
unfoldable pub inline_or : Str → Option NodeRef → Str → Build Str
inline_or default_text none v = pure default_text
inline_or default_text (some r) v = wrapping (context (codes "target")) (inline_ref r v)

-- The switch on the return mode.
unfoldable pub traverse_text : TraverseInput → ℤ → Str → Str → Str → Build Draft
traverse_text input limit start rel target =
    if input.return_mode ==s [] || input.return_mode ==s codes "nodes"
    then (param (int limit) >>= λ l. pure (
        read_draft (
          concat (
            codes "MATCH p = ANY SHORTEST "
            ∷ start
            ∷ rel
            ∷ target
            ∷ codes "\nRETURN elementId(s) AS startId, "
            ∷ node_summary (codes "t") input.node_properties
            ∷ codes " AS node, length(p) AS depth\nORDER BY depth\nLIMIT "
            ∷ l
            ∷ []))))
    else if input.return_mode ==s codes "paths"
    then (param (int limit) >>= λ l. pure (
        read_draft (
          concat (
            codes "MATCH p = "
            ∷ start
            ∷ rel
            ∷ target
            ∷ codes "\nRETURN "
            ∷ path_map (codes "p") input.node_properties
            ∷ codes " AS path\nORDER BY length(p)\nLIMIT "
            ∷ l
            ∷ []))))
    else lift (err (bad_mode input.return_mode))

unfoldable pub traverse_body : TraverseInput → Build Draft
traverse_body input =
    lift (require_node (codes "start") input.start)
    >> (lift (resolve_direction input.direction outgoing) >>= λ direction.
        lift (resolve_depths input.min_depth input.max_depth (pos 3) (pos 10)) >>= λ depths.
        lift (int_in_range (codes "limit") input.limit (pos 50) (pos 1) (pos 500)) >>= λ limit.
        lift (type_expr input.relationship_types) >>= λ types.
        lift (quantified_rel direction types depths.0 depths.1) >>= λ rel.
        wrapping (context (codes "start")) (inline_ref input.start (codes "s")) >>= λ start.
        inline_or (codes "(t)") input.target (codes "t") >>= λ target.
        traverse_text input limit start rel target)

-- buildTraverse
unfoldable pub build_traverse : TraverseInput → Result Query
unfolding traverse_body traverse_text
build_traverse input = run_build (traverse_body input)
