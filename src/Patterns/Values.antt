-- ===== src/Patterns/Values.antt =====
-- The pattern tools on inputs with erased property values.
use neo4j_mcp_canary.Prelude.{ℕ, suc, List, [], ◌∷◌, ◌≡◌, refl, ap, Option, none, some, ℤ, length}
use neo4j_mcp_canary.Text.{Str}
use neo4j_mcp_canary.Graphutil.NodeRef.{NodeRef, is_empty}
use neo4j_mcp_canary.Graphutil.Query.{statement}
use neo4j_mcp_canary.Graphutil.Erase.{erase_ref, erase_optional}
use neo4j_mcp_canary.Graphutil.Erase.Sim.{Sim, Sim-if, Sim-lift, statement-run_build}
use neo4j_mcp_canary.Graphutil.Erase.Refs.{has_predicate-erase, ref_rules}
use neo4j_mcp_canary.Traversal.Values.{or_empty-erase}
use neo4j_mcp_canary.Patterns.Chain.{
  ChainStep, chain_step, chain_steps, FindRelationshipChainInput, chain_body,
  build_find_relationship_chain,
}
use neo4j_mcp_canary.Patterns.Common.{
  all_selective, common_node, common_nodes, via_types, FindCommonConnectionsInput, common_body,
  build_find_common_connections,
}
use neo4j_mcp_canary.Patterns.Subgraph.{FindSubgraphInput, subgraph_body, build_find_subgraph}
use neo4j_mcp_canary.Patterns.Motif.{
  is_anchored, anchor, hub_motif, triangle_motif, cycle_motif, motif_case, FindMotifInput,
  motif_body, build_find_motif,
}

abbrev pub erase_refs : List NodeRef → List NodeRef
erase_refs [] = []
erase_refs (r ∷ rs) = erase_ref r ∷ erase_refs rs

length-erase_refs : (rs : List NodeRef) → length (erase_refs rs) ≡ length rs
length-erase_refs [] = refl
length-erase_refs (r ∷ rs) = ap suc (length-erase_refs rs)

abbrev pub erase_step : ChainStep → ChainStep
erase_step s = record s { node = erase_optional s.node }

abbrev pub erase_steps : List ChainStep → List ChainStep
erase_steps [] = []
erase_steps (s ∷ ss) = erase_step s ∷ erase_steps ss

length-erase_steps : (ss : List ChainStep) → length (erase_steps ss) ≡ length ss
length-erase_steps [] = refl
length-erase_steps (s ∷ ss) = ap suc (length-erase_steps ss)

is_empty-erase_steps : (ss : List ChainStep) → is_empty (erase_steps ss) ≡ is_empty ss
is_empty-erase_steps [] = refl
is_empty-erase_steps (s ∷ ss) = refl

Sim-chain_step : (i : ℕ) (s : ChainStep) → Sim (chain_step i (erase_step s)) (chain_step i s)
unfolding chain_step
Sim-chain_step i s = rw (or_empty-erase s.node) (search ref_rules depth 10)

Sim-chain_steps :
    (i : ℕ) (ss : List ChainStep) → Sim (chain_steps i (erase_steps ss)) (chain_steps i ss)
unfolding chain_steps
Sim-chain_steps i [] = search ref_rules
Sim-chain_steps i (s ∷ ss) = search (ref_rules, Sim-chain_step i s, Sim-chain_steps (suc i) ss)

abbrev pub erase_chain : FindRelationshipChainInput → FindRelationshipChainInput
erase_chain input = record input { start = erase_ref input.start; steps = erase_steps input.steps }

Sim-chain :
    (input : FindRelationshipChainInput) → Sim (chain_body (erase_chain input)) (chain_body input)
unfolding chain_body
Sim-chain input =
    rw
      (
        has_predicate-erase input.start,
        is_empty-erase_steps input.steps,
        length-erase_steps input.steps,
      )
      (search (ref_rules, Sim-chain_steps) depth 16)

-- find-relationship-chain sends the same statement, or returns the same error, for two inputs that
-- differ only in property values.
pub chain_values :
    (input : FindRelationshipChainInput)
    → statement (build_find_relationship_chain (erase_chain input))
      ≡ statement (build_find_relationship_chain input)
unfolding build_find_relationship_chain
chain_values input = statement-run_build _ _ (Sim-chain input)

all_selective-erase :
    (i : ℕ) (ns : List NodeRef) → all_selective i (erase_refs ns) ≡ all_selective i ns
unfolding all_selective
all_selective-erase i [] = refl
all_selective-erase i (n ∷ ns) = rw (has_predicate-erase n, all_selective-erase (suc i) ns)

Sim-common_node :
    (d t : Str) (i : ℕ) (n : NodeRef) → Sim (common_node d t i (erase_ref n)) (common_node d t i n)
unfolding common_node
Sim-common_node d t i n = search ref_rules depth 10

Sim-common_nodes :
    (d t : Str) (i : ℕ) (ns : List NodeRef)
    → Sim (common_nodes d t i (erase_refs ns)) (common_nodes d t i ns)
unfolding common_nodes
Sim-common_nodes d t i [] = search ref_rules
Sim-common_nodes d t i (n ∷ ns) =
    search (ref_rules, Sim-common_node d t i n, Sim-common_nodes d t (suc i) ns)

via_types-erase : (i : ℕ) (ns : List NodeRef) → via_types i (erase_refs ns) ≡ via_types i ns
unfolding via_types
via_types-erase i [] = refl
via_types-erase i (n ∷ ns) = rw (via_types-erase (suc i) ns)

abbrev pub erase_common : FindCommonConnectionsInput → FindCommonConnectionsInput
erase_common input = record input {
  nodes = erase_refs input.nodes;
  connection = erase_optional input.connection;
}

Sim-common :
    (input : FindCommonConnectionsInput)
    → Sim (common_body (erase_common input)) (common_body input)
unfolding common_body
Sim-common input =
    rw
      (
        length-erase_refs input.nodes,
        all_selective-erase 0 input.nodes,
        via_types-erase 0 input.nodes,
        or_empty-erase input.connection,
      )
      (search (ref_rules, Sim-common_nodes) depth 20)

-- The same for find-common-connections.
pub common_values :
    (input : FindCommonConnectionsInput)
    → statement (build_find_common_connections (erase_common input))
      ≡ statement (build_find_common_connections input)
unfolding build_find_common_connections
common_values input = statement-run_build _ _ (Sim-common input)

abbrev pub erase_subgraph : FindSubgraphInput → FindSubgraphInput
erase_subgraph input = record input { start = erase_ref input.start }

Sim-subgraph :
    (input : FindSubgraphInput) → Sim (subgraph_body (erase_subgraph input)) (subgraph_body input)
unfolding subgraph_body
Sim-subgraph input = rw (has_predicate-erase input.start) (search ref_rules depth 18)

-- The same for find-subgraph.
pub subgraph_values :
    (input : FindSubgraphInput)
    → statement (build_find_subgraph (erase_subgraph input)) ≡ statement (build_find_subgraph input)
unfolding build_find_subgraph
subgraph_values input = statement-run_build _ _ (Sim-subgraph input)

is_anchored-erase : (o : Option NodeRef) → is_anchored (erase_optional o) ≡ is_anchored o
is_anchored-erase none = refl
is_anchored-erase (some r) = refl

abbrev pub erase_motif : FindMotifInput → FindMotifInput
erase_motif input = record input { start = erase_optional input.start }

Sim-anchor :
    (ls : List Str) (r : NodeRef) (v : Str) → Sim (anchor ls (erase_ref r) v) (anchor ls r v)
unfolding anchor
Sim-anchor ls r v = search ref_rules depth 10

Sim-hub :
    (input : FindMotifInput) (l : ℤ) (t : Str)
    → Sim (hub_motif (erase_motif input) l t) (hub_motif input l t)
unfolding hub_motif
Sim-hub input l t = rw (or_empty-erase input.start) (search (ref_rules, Sim-anchor) depth 14)

Sim-triangle :
    (input : FindMotifInput) (l : ℤ) (t ls : Str)
    → Sim (triangle_motif (erase_motif input) l t ls) (triangle_motif input l t ls)
unfolding triangle_motif
Sim-triangle input l t ls =
    rw (or_empty-erase input.start, is_anchored-erase input.start)
      (search (ref_rules, Sim-anchor) depth 14)

Sim-cycle :
    (input : FindMotifInput) (l : ℤ) (t ls : Str)
    → Sim (cycle_motif (erase_motif input) l t ls) (cycle_motif input l t ls)
unfolding cycle_motif
Sim-cycle input l t ls =
    rw (or_empty-erase input.start, is_anchored-erase input.start)
      (search (ref_rules, Sim-anchor) depth 14)

Sim-motif_case :
    (input : FindMotifInput) (l : ℤ) (t ls : Str)
    → Sim (motif_case (erase_motif input) l t ls) (motif_case input l t ls)
unfolding motif_case
Sim-motif_case input l t ls = Sim-if _ _ _ _ _ (Sim-hub input l t) (
    Sim-if _ _ _ _ _ (Sim-triangle input l t ls)
      (Sim-if _ _ _ _ _ (Sim-cycle input l t ls) (Sim-lift _)))

Sim-motif : (input : FindMotifInput) → Sim (motif_body (erase_motif input)) (motif_body input)
unfolding motif_body
Sim-motif input = search (ref_rules, Sim-motif_case) depth 14

-- The same for find-motif.
pub motif_values :
    (input : FindMotifInput)
    → statement (build_find_motif (erase_motif input)) ≡ statement (build_find_motif input)
unfolding build_find_motif
motif_values input = statement-run_build _ _ (Sim-motif input)
