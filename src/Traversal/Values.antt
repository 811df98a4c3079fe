-- ===== src/Traversal/Values.antt =====
-- The traversal tools on inputs with erased property values.
use neo4j_mcp_canary.Prelude.{◌≡◌, refl, Option, none, some}
use neo4j_mcp_canary.Text.{Str, codes}
use neo4j_mcp_canary.Graphutil.NodeRef.{NodeRef}
use neo4j_mcp_canary.Graphutil.Query.{statement}
use neo4j_mcp_canary.Graphutil.Erase.{erase_ref, erase_optional}
use neo4j_mcp_canary.Graphutil.Erase.Sim.{Sim, statement-run_build}
use neo4j_mcp_canary.Graphutil.Erase.Refs.{has_predicate-erase, ref_rules}
use neo4j_mcp_canary.Traversal.Common.{require_node}
use neo4j_mcp_canary.Traversal.Traverse.{
  TraverseInput, inline_or, traverse_text, traverse_body, build_traverse,
}
use neo4j_mcp_canary.Traversal.Paths.{
  FindShortestPathInput, shortest_body, build_find_shortest_path, FindAllPathsInput, all_paths_body,
  build_find_all_paths,
}
use neo4j_mcp_canary.Traversal.Expand.{
  ExpandNeighborsInput, or_empty, expand_body, build_expand_neighbors,
}

pub require_node-erase :
    (field : Str) (r : NodeRef) → require_node field (erase_ref r) ≡ require_node field r
unfolding require_node
require_node-erase field r = rw (has_predicate-erase r)

Sim-inline_or :
    (t : Str) (o : Option NodeRef) (v : Str)
    → Sim (inline_or t (erase_optional o) v) (inline_or t o v)
unfolding inline_or
Sim-inline_or t none v = search ref_rules
Sim-inline_or t (some r) v = search ref_rules

pub or_empty-erase : (o : Option NodeRef) → or_empty (erase_optional o) ≡ erase_ref (or_empty o)
or_empty-erase none = refl
or_empty-erase (some r) = refl

abbrev pub erase_traverse : TraverseInput → TraverseInput
erase_traverse input = record input {
  start = erase_ref input.start;
  target = erase_optional input.target;
}

Sim-traverse :
    (input : TraverseInput) → Sim (traverse_body (erase_traverse input)) (traverse_body input)
unfolding traverse_body traverse_text
Sim-traverse input =
    rw (require_node-erase (codes "start") input.start) (search (ref_rules, Sim-inline_or) depth 14)

-- The statement that traverse sends, and every error that it returns, is the same for two inputs
-- that differ only in property values.
pub traverse_values :
    (input : TraverseInput)
    → statement (build_traverse (erase_traverse input)) ≡ statement (build_traverse input)
unfolding build_traverse
traverse_values input = statement-run_build _ _ (Sim-traverse input)

abbrev pub erase_expand : ExpandNeighborsInput → ExpandNeighborsInput
erase_expand input = record input {
  start = erase_ref input.start;
  neighbor = erase_optional input.neighbor;
}

Sim-expand :
    (input : ExpandNeighborsInput) → Sim (expand_body (erase_expand input)) (expand_body input)
unfolding expand_body
Sim-expand input =
    rw (require_node-erase (codes "start") input.start, or_empty-erase input.neighbor)
      (search ref_rules depth 14)

-- The same for expand-neighbors.
pub expand_values :
    (input : ExpandNeighborsInput)
    → statement (build_expand_neighbors (erase_expand input))
      ≡ statement (build_expand_neighbors input)
unfolding build_expand_neighbors
expand_values input = statement-run_build _ _ (Sim-expand input)

abbrev pub erase_shortest : FindShortestPathInput → FindShortestPathInput
erase_shortest input = record input { from = erase_ref input.from; to = erase_ref input.to }

Sim-shortest :
    (input : FindShortestPathInput)
    → Sim (shortest_body (erase_shortest input)) (shortest_body input)
unfolding shortest_body
Sim-shortest input =
    rw (require_node-erase (codes "from") input.from, require_node-erase (codes "to") input.to)
      (search ref_rules depth 16)

-- The same for find-shortest-path.
pub shortest_values :
    (input : FindShortestPathInput)
    → statement (build_find_shortest_path (erase_shortest input))
      ≡ statement (build_find_shortest_path input)
unfolding build_find_shortest_path
shortest_values input = statement-run_build _ _ (Sim-shortest input)

abbrev pub erase_all_paths : FindAllPathsInput → FindAllPathsInput
erase_all_paths input = record input { from = erase_ref input.from; to = erase_ref input.to }

Sim-all_paths :
    (input : FindAllPathsInput)
    → Sim (all_paths_body (erase_all_paths input)) (all_paths_body input)
unfolding all_paths_body
Sim-all_paths input =
    rw (require_node-erase (codes "from") input.from, require_node-erase (codes "to") input.to)
      (search ref_rules depth 16)

-- The same for find-all-paths.
pub all_paths_values :
    (input : FindAllPathsInput)
    → statement (build_find_all_paths (erase_all_paths input))
      ≡ statement (build_find_all_paths input)
unfolding build_find_all_paths
all_paths_values input = statement-run_build _ _ (Sim-all_paths input)
