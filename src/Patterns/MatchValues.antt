-- ===== src/Patterns/MatchValues.antt =====
-- match-pattern on inputs with erased property values.
use neo4j_mcp_canary.Prelude.{ℕ, suc, List, [], ◌∷◌, ◌≡◌, refl, ap, ℤ, length}
use neo4j_mcp_canary.Text.{Str}
use neo4j_mcp_canary.Graphutil.NodeRef.{is_empty}
use neo4j_mcp_canary.Graphutil.Query.{statement}
use neo4j_mcp_canary.Graphutil.Erase.{erase_params, erase_filters, erase_ref}
use neo4j_mcp_canary.Graphutil.Erase.Sim.{Sim, Sim-if, Sim-lift, statement-run_build}
use neo4j_mcp_canary.Graphutil.Erase.Refs.{ref_rules}
use neo4j_mcp_canary.Patterns.MatchPattern.{
  PatternNode, PatternRel, MatchPatternInput, alias_names, rel_ends, pattern_node, pattern_nodes,
  pattern_rel, pattern_rels, rel_entries, rows_query, count_or_exists, mode_case, check_pattern,
  pattern_body, build_match_pattern,
}

abbrev pub erase_node : PatternNode → PatternNode
erase_node n = record n { ref = erase_ref n.ref }

abbrev pub erase_nodes : List PatternNode → List PatternNode
erase_nodes [] = []
erase_nodes (n ∷ ns) = erase_node n ∷ erase_nodes ns

abbrev pub erase_pattern_rel : PatternRel → PatternRel
erase_pattern_rel r = record r {
  matching = erase_params r.matching;
  filters = erase_filters r.filters;
}

abbrev pub erase_pattern_rels : List PatternRel → List PatternRel
erase_pattern_rels [] = []
erase_pattern_rels (r ∷ rs) = erase_pattern_rel r ∷ erase_pattern_rels rs

length-erase_nodes : (ns : List PatternNode) → length (erase_nodes ns) ≡ length ns
length-erase_nodes [] = refl
length-erase_nodes (n ∷ ns) = ap suc (length-erase_nodes ns)

is_empty-erase_nodes : (ns : List PatternNode) → is_empty (erase_nodes ns) ≡ is_empty ns
is_empty-erase_nodes [] = refl
is_empty-erase_nodes (n ∷ ns) = refl

length-erase_pattern_rels : (rs : List PatternRel) → length (erase_pattern_rels rs) ≡ length rs
length-erase_pattern_rels [] = refl
length-erase_pattern_rels (r ∷ rs) = ap suc (length-erase_pattern_rels rs)

alias_names-erase : (ns : List PatternNode) → alias_names (erase_nodes ns) ≡ alias_names ns
unfolding alias_names
alias_names-erase [] = refl
alias_names-erase (n ∷ ns) = rw (alias_names-erase ns)

rel_ends-erase : (rs : List PatternRel) → rel_ends (erase_pattern_rels rs) ≡ rel_ends rs
unfolding rel_ends
rel_ends-erase [] = refl
rel_ends-erase (r ∷ rs) = rw (rel_ends-erase rs)

rel_entries-erase :
    (i : ℕ) (rs : List PatternRel) → rel_entries i (erase_pattern_rels rs) ≡ rel_entries i rs
unfolding rel_entries
rel_entries-erase i [] = refl
rel_entries-erase i (r ∷ rs) = rw (rel_entries-erase (suc i) rs)

Sim-pattern_node : (n : PatternNode) → Sim (pattern_node (erase_node n)) (pattern_node n)
unfolding pattern_node
Sim-pattern_node n = search ref_rules depth 10

Sim-pattern_nodes :
    (ns : List PatternNode) → Sim (pattern_nodes (erase_nodes ns)) (pattern_nodes ns)
unfolding pattern_nodes
Sim-pattern_nodes [] = search ref_rules
Sim-pattern_nodes (n ∷ ns) = search (ref_rules, Sim-pattern_node n, Sim-pattern_nodes ns)

Sim-pattern_rel :
    (i : ℕ) (r : PatternRel) → Sim (pattern_rel i (erase_pattern_rel r)) (pattern_rel i r)
unfolding pattern_rel
Sim-pattern_rel i r = search ref_rules depth 12

Sim-pattern_rels :
    (i : ℕ) (rs : List PatternRel)
    → Sim (pattern_rels i (erase_pattern_rels rs)) (pattern_rels i rs)
unfolding pattern_rels
Sim-pattern_rels i [] = search ref_rules
Sim-pattern_rels i (r ∷ rs) = search (ref_rules, Sim-pattern_rel i r, Sim-pattern_rels (suc i) rs)

abbrev pub erase_match_pattern : MatchPatternInput → MatchPatternInput
erase_match_pattern input = record input {
  nodes = erase_nodes input.nodes;
  relationships = erase_pattern_rels input.relationships;
}

Sim-rows :
    (input : MatchPatternInput) (l : ℤ) (t : Str)
    → Sim (rows_query (erase_match_pattern input) l t) (rows_query input l t)
unfolding rows_query
Sim-rows input l t =
    rw (alias_names-erase input.nodes, rel_entries-erase 0 input.relationships) (search ref_rules)

Sim-mode_case :
    (input : MatchPatternInput) (l : ℤ) (t : Str)
    → Sim (mode_case (erase_match_pattern input) l t) (mode_case input l t)
unfolding mode_case
Sim-mode_case input l t =
    Sim-if _ _ _ _ _ (Sim-rows input l t) (Sim-lift (count_or_exists input.mode t))

check_pattern-erase :
    (input : MatchPatternInput) → check_pattern (erase_match_pattern input) ≡ check_pattern input
unfolding check_pattern
check_pattern-erase input = rw (
  alias_names-erase input.nodes,
  rel_ends-erase input.relationships,
  is_empty-erase_nodes input.nodes,
  length-erase_nodes input.nodes,
  length-erase_pattern_rels input.relationships,
)

Sim-pattern :
    (input : MatchPatternInput)
    → Sim (pattern_body (erase_match_pattern input)) (pattern_body input)
unfolding pattern_body
Sim-pattern input =
    rw (check_pattern-erase input, alias_names-erase input.nodes)
      (search (ref_rules, Sim-pattern_nodes, Sim-pattern_rels, Sim-mode_case) depth 12)

-- match-pattern sends the same statement, or returns the same error, for two inputs that differ
-- only in property values.
pub match_pattern_values :
    (input : MatchPatternInput)
    → statement (build_match_pattern (erase_match_pattern input))
      ≡ statement (build_match_pattern input)
unfolding build_match_pattern
match_pattern_values input = statement-run_build _ _ (Sim-pattern input)
