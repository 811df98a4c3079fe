-- ===== src/Tools.antt =====
-- The graph tools together: one input type for all of them, and what their build functions share.
pub mod Custom
use neo4j_mcp_canary.Prelude.{◌≡◌}
use neo4j_mcp_canary.Graph.Reads.{
  FindNodesInput, GetNodeInput, FindRelationshipsInput, build_count_nodes, build_find_nodes,
  build_get_node, build_find_relationships,
}
use neo4j_mcp_canary.Graph.Nodes.{
  CreateNodeInput, DeleteNodeInput, UpdateNodeInput, build_create_node, build_delete_node,
  build_update_node,
}
use neo4j_mcp_canary.Graph.Relationships.{
  CreateRelationshipInput, DeleteRelationshipInput, UpdateRelationshipInput,
  build_create_relationship, build_delete_relationship, build_update_relationship,
}
use neo4j_mcp_canary.Graph.Values.{
  erase_find_nodes, erase_get_node, erase_find_relationships, count_nodes_values, find_nodes_values,
  get_node_values, find_relationships_values,
}
use neo4j_mcp_canary.Graph.Values.Writes.{
  erase_create_node, erase_delete_node, erase_update_node, erase_create_relationship,
  erase_delete_relationship, erase_update_relationship, create_node_values, delete_node_values,
  update_node_values, create_relationship_values, delete_relationship_values,
  update_relationship_values,
}
use neo4j_mcp_canary.Traversal.Traverse.{TraverseInput, build_traverse}
use neo4j_mcp_canary.Traversal.Expand.{ExpandNeighborsInput, build_expand_neighbors}
use neo4j_mcp_canary.Traversal.Paths.{
  FindShortestPathInput, FindAllPathsInput, build_find_shortest_path, build_find_all_paths,
}
use neo4j_mcp_canary.Traversal.Values.{
  erase_traverse, erase_expand, erase_shortest, erase_all_paths, traverse_values, expand_values,
  shortest_values, all_paths_values,
}
use neo4j_mcp_canary.Patterns.Chain.{FindRelationshipChainInput, build_find_relationship_chain}
use neo4j_mcp_canary.Patterns.Common.{FindCommonConnectionsInput, build_find_common_connections}
use neo4j_mcp_canary.Patterns.Subgraph.{FindSubgraphInput, build_find_subgraph}
use neo4j_mcp_canary.Patterns.Motif.{FindMotifInput, build_find_motif}
use neo4j_mcp_canary.Patterns.MatchPattern.{MatchPatternInput, build_match_pattern}
use neo4j_mcp_canary.Patterns.Values.{
  erase_chain, erase_common, erase_subgraph, erase_motif, chain_values, common_values,
  subgraph_values, motif_values,
}
use neo4j_mcp_canary.Patterns.MatchValues.{erase_match_pattern, match_pattern_values}
use neo4j_mcp_canary.Graphutil.NodeRef.{NodeRef}
use neo4j_mcp_canary.Graphutil.Error.{Result}
use neo4j_mcp_canary.Graphutil.Query.{Query, statement}
use neo4j_mcp_canary.Graphutil.Erase.{erase_ref}

-- A call of a graph tool.
pub data ToolInput : Type 0 where
  count_nodes : NodeRef → ToolInput
  find_nodes : FindNodesInput → ToolInput
  get_node : GetNodeInput → ToolInput
  create_node : CreateNodeInput → ToolInput
  delete_node : DeleteNodeInput → ToolInput
  update_node : UpdateNodeInput → ToolInput
  find_relationships : FindRelationshipsInput → ToolInput
  create_relationship : CreateRelationshipInput → ToolInput
  delete_relationship : DeleteRelationshipInput → ToolInput
  update_relationship : UpdateRelationshipInput → ToolInput
  traverse : TraverseInput → ToolInput
  expand_neighbors : ExpandNeighborsInput → ToolInput
  find_shortest_path : FindShortestPathInput → ToolInput
  find_all_paths : FindAllPathsInput → ToolInput
  find_relationship_chain : FindRelationshipChainInput → ToolInput
  find_common_connections : FindCommonConnectionsInput → ToolInput
  find_subgraph : FindSubgraphInput → ToolInput
  find_motif : FindMotifInput → ToolInput
  match_pattern : MatchPatternInput → ToolInput

abbrev pub build_tool : ToolInput → Result Query
build_tool (count_nodes input) = build_count_nodes input
build_tool (find_nodes input) = build_find_nodes input
build_tool (get_node input) = build_get_node input
build_tool (create_node input) = build_create_node input
build_tool (delete_node input) = build_delete_node input
build_tool (update_node input) = build_update_node input
build_tool (find_relationships input) = build_find_relationships input
build_tool (create_relationship input) = build_create_relationship input
build_tool (delete_relationship input) = build_delete_relationship input
build_tool (update_relationship input) = build_update_relationship input
build_tool (traverse input) = build_traverse input
build_tool (expand_neighbors input) = build_expand_neighbors input
build_tool (find_shortest_path input) = build_find_shortest_path input
build_tool (find_all_paths input) = build_find_all_paths input
build_tool (find_relationship_chain input) = build_find_relationship_chain input
build_tool (find_common_connections input) = build_find_common_connections input
build_tool (find_subgraph input) = build_find_subgraph input
build_tool (find_motif input) = build_find_motif input
build_tool (match_pattern input) = build_match_pattern input

-- The call with the value of every property that it matches, filters by or writes replaced: null
-- stays null, a list becomes the empty list, and any other value becomes the same Boolean.
abbrev pub erase_tool : ToolInput → ToolInput
erase_tool (count_nodes input) = count_nodes (erase_ref input)
erase_tool (find_nodes input) = find_nodes (erase_find_nodes input)
erase_tool (get_node input) = get_node (erase_get_node input)
erase_tool (create_node input) = create_node (erase_create_node input)
erase_tool (delete_node input) = delete_node (erase_delete_node input)
erase_tool (update_node input) = update_node (erase_update_node input)
erase_tool (find_relationships input) = find_relationships (erase_find_relationships input)
erase_tool (create_relationship input) = create_relationship (erase_create_relationship input)
erase_tool (delete_relationship input) = delete_relationship (erase_delete_relationship input)
erase_tool (update_relationship input) = update_relationship (erase_update_relationship input)
erase_tool (traverse input) = traverse (erase_traverse input)
erase_tool (expand_neighbors input) = expand_neighbors (erase_expand input)
erase_tool (find_shortest_path input) = find_shortest_path (erase_shortest input)
erase_tool (find_all_paths input) = find_all_paths (erase_all_paths input)
erase_tool (find_relationship_chain input) = find_relationship_chain (erase_chain input)
erase_tool (find_common_connections input) = find_common_connections (erase_common input)
erase_tool (find_subgraph input) = find_subgraph (erase_subgraph input)
erase_tool (find_motif input) = find_motif (erase_motif input)
erase_tool (match_pattern input) = match_pattern (erase_match_pattern input)

-- No property value of a call reaches the text of the statement that a graph tool sends: with every
-- value erased, each of the nineteen tools builds the same statement with the same access mode and
-- error hint, or fails with the same error.
pub tool_values :
    (input : ToolInput) → statement (build_tool (erase_tool input)) ≡ statement (build_tool input)
tool_values (count_nodes input) = count_nodes_values input
tool_values (find_nodes input) = find_nodes_values input
tool_values (get_node input) = get_node_values input
tool_values (create_node input) = create_node_values input
tool_values (delete_node input) = delete_node_values input
tool_values (update_node input) = update_node_values input
tool_values (find_relationships input) = find_relationships_values input
tool_values (create_relationship input) = create_relationship_values input
tool_values (delete_relationship input) = delete_relationship_values input
tool_values (update_relationship input) = update_relationship_values input
tool_values (traverse input) = traverse_values input
tool_values (expand_neighbors input) = expand_values input
tool_values (find_shortest_path input) = shortest_values input
tool_values (find_all_paths input) = all_paths_values input
tool_values (find_relationship_chain input) = chain_values input
tool_values (find_common_connections input) = common_values input
tool_values (find_subgraph input) = subgraph_values input
tool_values (find_motif input) = motif_values input
tool_values (match_pattern input) = match_pattern_values input
