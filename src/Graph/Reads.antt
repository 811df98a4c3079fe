-- ===== src/Graph/Reads.antt =====
-- graph/node_count.go, node_find.go, node_get.go, rel_find.go: the tools that only read.
use neo4j_mcp_canary.Prelude.{List, [], ◌∷◌, ◌++◌, ℤ}
use neo4j_mcp_canary.Text.{Str, codes, concat}
use neo4j_mcp_canary.Graphutil.Error.{Result, require, must_select}
use neo4j_mcp_canary.Graphutil.Builder.{Build, ◌>>=◌, ◌>>◌, pure, lift}
use neo4j_mcp_canary.Graphutil.NodeRef.{NodeRef, has_predicate}
use neo4j_mcp_canary.Graphutil.Projection.{node_map, node_summary, rel_map}
use neo4j_mcp_canary.Graphutil.Query.{Query, Draft, read_draft, run_build}
use neo4j_mcp_canary.Graph.Common.{node_match, order_clause, pagination}
use neo4j_mcp_canary.Graph.RelRef.{RelRef, rel_match}

unfoldable pub count_nodes_body : NodeRef → Build Draft
count_nodes_body ref = node_match ref (codes "n") >>= λ match.
    pure (read_draft (match ++ codes "\nRETURN count(n) AS count"))

-- buildCountNodes: the input is a node reference and nothing else.
unfoldable pub build_count_nodes : NodeRef → Result Query
unfolding count_nodes_body
build_count_nodes ref = run_build (count_nodes_body ref)

pub record FindNodesInput : Type 0 where
  pub ref : NodeRef
  pub return_properties : List Str
  pub order_by : Str
  pub order_direction : Str
  pub limit : ℤ
  pub skip : ℤ

unfoldable pub find_nodes_body : FindNodesInput → Build Draft
find_nodes_body input = node_match input.ref (codes "n") >>= λ match.
    lift (order_clause (codes "n") input.order_by input.order_direction) >>= λ order.
    pagination input.limit input.skip >>= λ page. pure (
      read_draft (
        concat (
          match
          ∷ codes "\nRETURN "
          ∷ node_map (codes "n") input.return_properties
          ∷ codes " AS node"
          ∷ order
          ∷ page
          ∷ [])))

-- buildFindNodes
unfoldable pub build_find_nodes : FindNodesInput → Result Query
unfolding find_nodes_body
build_find_nodes input = run_build (find_nodes_body input)

pub record GetNodeInput : Type 0 where
  pub ref : NodeRef
  pub return_properties : List Str

unfoldable pub get_node_body : GetNodeInput → Build Draft
get_node_body input =
    lift (require (has_predicate input.ref) (must_select (codes "get-node")))
    >> (node_match input.ref (codes "n") >>= λ match. pure (
        read_draft (
          concat (
            match
            ∷ codes
                "\nWITH n LIMIT 5\nCALL (n) {\n  MATCH (n)-[r]-()\n  WITH type(r) AS type, CASE WHEN startNode(r) = n THEN 'OUTGOING' ELSE 'INCOMING' END AS direction, count(*) AS count\n  RETURN collect({type: type, direction: direction, count: count}) AS relationshipCounts\n}\nRETURN "
            ∷ node_map (codes "n") input.return_properties
            ∷ codes " AS node, relationshipCounts"
            ∷ []))))

-- buildGetNode
unfoldable pub build_get_node : GetNodeInput → Result Query
unfolding get_node_body
build_get_node input = run_build (get_node_body input)

pub record FindRelationshipsInput : Type 0 where
  pub ref : RelRef
  pub return_properties : List Str
  pub endpoint_properties : List Str
  pub limit : ℤ
  pub skip : ℤ

unfoldable pub find_relationships_body : FindRelationshipsInput → Build Draft
find_relationships_body input = rel_match input.ref >>= λ match.
    pagination input.limit input.skip >>= λ page. pure (
      read_draft (
        concat (
          match
          ∷ codes "\nRETURN "
          ∷ rel_map (codes "r") input.return_properties
          ∷ codes " AS relationship, "
          ∷ node_summary (codes "src") input.endpoint_properties
          ∷ codes " AS fromNode, "
          ∷ node_summary (codes "dst") input.endpoint_properties
          ∷ codes " AS toNode"
          ∷ page
          ∷ [])))

-- buildFindRelationships
unfoldable pub build_find_relationships : FindRelationshipsInput → Result Query
unfolding find_relationships_body
build_find_relationships input = run_build (find_relationships_body input)
