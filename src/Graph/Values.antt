-- ===== src/Graph/Values.antt =====
-- The reading graph tools on inputs with erased property values.
pub mod Writes
use neo4j_mcp_canary.Prelude.{
  List, [], ◌∷◌, ◌≡◌, refl, ap, Option, none, some, ℤ, Bool, true, false, not, ◌||◌,
}
use neo4j_mcp_canary.Text.{Str, codes}
use neo4j_mcp_canary.Graphutil.Builder.{◌>>=◌}
use neo4j_mcp_canary.Graphutil.NodeRef.{NodeRef, is_empty, has_predicate}
use neo4j_mcp_canary.Graphutil.Query.{statement}
use neo4j_mcp_canary.Graphutil.Erase.{erase_params, erase_filters, erase_ref, erase_optional}
use neo4j_mcp_canary.Graphutil.Erase.Sim.{Sim, statement-run_build}
use neo4j_mcp_canary.Graphutil.Erase.Refs.{
  Sim-id_conditions, has_predicate-erase, is_empty-erase_params, is_empty-erase_filters, ref_rules,
}
use neo4j_mcp_canary.Traversal.Values.{or_empty-erase}
use neo4j_mcp_canary.Graph.Common.{node_match, skip_clause, pagination}
use neo4j_mcp_canary.Graph.RelRef.{RelRef, optional_has_predicate, rel_has_predicate, rel_match}
use neo4j_mcp_canary.Graph.Reads.{
  count_nodes_body, build_count_nodes, FindNodesInput, find_nodes_body, build_find_nodes,
  GetNodeInput, get_node_body, build_get_node, FindRelationshipsInput, find_relationships_body,
  build_find_relationships,
}

abbrev pub erase_rel : RelRef → RelRef
erase_rel r = record r {
  from = erase_optional r.from;
  to = erase_optional r.to;
  match = erase_params r.match;
  filters = erase_filters r.filters;
}

pub Sim-node_match : (r : NodeRef) (v : Str) → Sim (node_match (erase_ref r) v) (node_match r v)
unfolding node_match
Sim-node_match r v = search ref_rules

pub Sim-rel_match : (r : RelRef) → Sim (rel_match (erase_rel r)) (rel_match r)
unfolding rel_match
Sim-rel_match r =
    rw (or_empty-erase r.from, or_empty-erase r.to) (search (ref_rules, Sim-id_conditions) depth 12)

Sim-skip_clause : (skip : ℤ) → Sim (skip_clause skip) (skip_clause skip)
unfolding skip_clause
Sim-skip_clause skip = search ref_rules

pub Sim-pagination : (limit skip : ℤ) → Sim (pagination limit skip) (pagination limit skip)
unfolding pagination
Sim-pagination limit skip = search (ref_rules, Sim-skip_clause)

optional_has_predicate-erase :
    (o : Option NodeRef) → optional_has_predicate (erase_optional o) ≡ optional_has_predicate o
optional_has_predicate-erase none = refl
optional_has_predicate-erase (some r) = has_predicate-erase r

pub rel_has_predicate-erase : (r : RelRef) → rel_has_predicate (erase_rel r) ≡ rel_has_predicate r
unfolding rel_has_predicate
rel_has_predicate-erase r = rw (
  is_empty-erase_params r.match,
  is_empty-erase_filters r.filters,
  optional_has_predicate-erase r.from,
  optional_has_predicate-erase r.to,
)

-- count-nodes
pub count_nodes_values :
    (r : NodeRef) → statement (build_count_nodes (erase_ref r)) ≡ statement (build_count_nodes r)
unfolding build_count_nodes
count_nodes_values r = statement-run_build _ _ (search (ref_rules, Sim-node_match))

abbrev pub erase_find_nodes : FindNodesInput → FindNodesInput
erase_find_nodes input = record input { ref = erase_ref input.ref }

-- find-nodes
pub find_nodes_values :
    (input : FindNodesInput)
    → statement (build_find_nodes (erase_find_nodes input)) ≡ statement (build_find_nodes input)
unfolding build_find_nodes
find_nodes_values input =
    statement-run_build _ _ (search (ref_rules, Sim-node_match, Sim-pagination) depth 9)

abbrev pub erase_get_node : GetNodeInput → GetNodeInput
erase_get_node input = record input { ref = erase_ref input.ref }

-- get-node
pub get_node_values :
    (input : GetNodeInput)
    → statement (build_get_node (erase_get_node input)) ≡ statement (build_get_node input)
unfolding build_get_node
get_node_values input =
    statement-run_build _ _
      (rw (has_predicate-erase input.ref) (search (ref_rules, Sim-node_match) depth 9))

abbrev pub erase_find_relationships : FindRelationshipsInput → FindRelationshipsInput
erase_find_relationships input = record input { ref = erase_rel input.ref }

-- find-relationships
pub find_relationships_values :
    (input : FindRelationshipsInput)
    → statement (build_find_relationships (erase_find_relationships input))
      ≡ statement (build_find_relationships input)
unfolding build_find_relationships
find_relationships_values input =
    statement-run_build _ _ (search (ref_rules, Sim-rel_match, Sim-pagination) depth 9)
