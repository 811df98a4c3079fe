-- ===== src/Patterns/Common.antt =====
-- patterns/common_connections.go: find-common-connections.
use neo4j_mcp_canary.Prelude.{
  ℕ, zero, suc, not, ◌||◌, List, [], ◌∷◌, ◌++◌, Option, length, ltb, if◌then◌else◌, ℤ, pos,
}
use neo4j_mcp_canary.Text.{Str, codes, concat, join, itoa, ◌==s◌}
use neo4j_mcp_canary.Graphutil.Value.{int}
use neo4j_mcp_canary.Graphutil.Error.{
  Result, ok, err, require, wrap, context, context_at, must_select, bad_node_count,
}
use neo4j_mcp_canary.Graphutil.Builder.{Build, ◌>>=◌, ◌>>◌, pure, lift, param, wrapping}
use neo4j_mcp_canary.Graphutil.Quote.{label_expr, type_expr, where_clause}
use neo4j_mcp_canary.Graphutil.NodeRef.{NodeRef, has_predicate, conditions, pattern_of}
use neo4j_mcp_canary.Graphutil.Limits.{int_in_range, single_rel}
use neo4j_mcp_canary.Graphutil.Projection.{node_summary}
use neo4j_mcp_canary.Graphutil.Query.{Query, Draft, read_draft, run_build}
use neo4j_mcp_canary.Traversal.Expand.{or_empty}
use neo4j_mcp_canary.Patterns.Chain.{node_var}
use neo4j_mcp_canary.Patterns.Subgraph.{or_both}

pub record FindCommonConnectionsInput : Type 0 where
  pub nodes : List NodeRef
  pub relationship_types : List Str
  pub direction : Str
  pub connection : Option NodeRef
  pub node_properties : List Str
  pub limit : ℤ

-- The first loop: every node has a predicate.
unfoldable pub all_selective : ℕ → List NodeRef → Result (Unit {0})
all_selective i [] = ok tt
all_selective i (n ∷ ns) =
    let rest = all_selective (suc i) ns in
    if has_predicate n
    then rest
    else err (context_at (codes "nodes") i (must_select (codes "nodes")))

-- fmt.Sprintf("r%d", i)
abbrev pub rel_var : ℕ → Str
rel_var i = b'r' ∷ itoa i

-- `for j := 0; j < i; j++`: with `k` rounds left of `n`, at j = n - k
unfoldable pub distinct_from : Str → ℕ → ℕ → List Str
distinct_from nv j zero = []
distinct_from nv j (suc k) =
    concat (nv ∷ codes " <> " ∷ node_var j ∷ []) ∷ distinct_from nv (suc j) k

-- What one round of the second loop appends to `patterns` and to `conds`.
unfoldable pub common_node : Str → Str → ℕ → NodeRef → Build (Str × List Str)
common_node direction types i n = lift (single_rel direction (rel_var i) types) >>= λ rel.
    wrapping (context_at (codes "nodes") i) (pattern_of n (node_var i)) >>= λ p. pure (
      concat (p.0 ∷ rel ∷ codes "(c)" ∷ []),
      (p.1 ++ concat (codes "c <> " ∷ node_var i ∷ []) ∷ []) ++ distinct_from (node_var i) 0 i,
    )

-- The second loop, at index `i`.
unfoldable pub common_nodes : Str → Str → ℕ → List NodeRef → Build (List Str × List Str)
common_nodes direction types i [] = pure ([], [])
common_nodes direction types i (n ∷ ns) = common_node direction types i n >>= λ p.
    common_nodes direction types (suc i) ns >>= λ r. pure (p.0 ∷ r.0, p.1 ++ r.1)

-- `via`
unfoldable pub via_types : ℕ → List NodeRef → List Str
via_types i [] = []
via_types i (n ∷ ns) = concat (codes "type(" ∷ rel_var i ∷ codes ")" ∷ []) ∷ via_types (suc i) ns

-- `if cLabels != "" { conds = append(conds, "c"+cLabels) }`
abbrev pub labelled : Str → Str → List Str
labelled v labels = if labels ==s [] then [] else (v ++ labels) ∷ []

unfoldable pub common_body : FindCommonConnectionsInput → Build Draft
common_body input =
    lift (
      require (not (ltb (length input.nodes) 2 || ltb 5 (length input.nodes)))
        (bad_node_count (length input.nodes)))
    >> (lift (all_selective 0 input.nodes)
        >> (lift (int_in_range (codes "limit") input.limit (pos 25) (pos 1) (pos 200)) >>= λ limit.
            lift (type_expr input.relationship_types) >>= λ types.
            common_nodes (or_both input.direction) types 0 input.nodes >>= λ p.
            lift
              (wrap (context (codes "connection")) (label_expr (or_empty input.connection).labels))
            >>= λ labels.
                wrapping (context (codes "connection"))
                  (conditions (or_empty input.connection) (codes "c"))
                >>= λ conds. param (int limit) >>= λ l. pure (
                    read_draft (
                      concat (
                        codes "MATCH "
                        ∷ join p.0 (codes ", ")
                        ∷ where_clause ((p.1 ++ labelled (codes "c") labels) ++ conds)
                        ∷ codes "\nRETURN DISTINCT "
                        ∷ node_summary (codes "c") input.node_properties
                        ∷ codes " AS connection, ["
                        ∷ join (via_types 0 input.nodes) (codes ", ")
                        ∷ codes "] AS relationshipTypes\nLIMIT "
                        ∷ l
                        ∷ [])))))

-- buildFindCommonConnections
unfoldable pub build_find_common_connections : FindCommonConnectionsInput → Result Query
unfolding common_body
build_find_common_connections input = run_build (common_body input)
