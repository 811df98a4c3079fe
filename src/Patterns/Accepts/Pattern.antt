-- ===== src/Patterns/Accepts/Pattern.antt =====
-- The checks of match-pattern before it builds a query.
use neo4j_mcp_canary.Prelude.{
  ℕ, ◌≤◌, true, not, ◌||◌, ◌≡◌, refl, arith, length, ltb, ℤ, pos, ◌≤ℤ◌, List, [], ◌∷◌,
}
use neo4j_mcp_canary.Text.{Str, codes}
use neo4j_mcp_canary.Graphutil.Error.{
  Result, ok, err, ◌>>=r◌, require, nodes_required, pattern_too_large,
}
use neo4j_mcp_canary.Graphutil.Limits.{int_in_range, int_in_range_bounds}
use neo4j_mcp_canary.Graphutil.NodeRef.{is_empty}
use neo4j_mcp_canary.Graphutil.Query.{Query}
use neo4j_mcp_canary.Graphutil.Builder.{new_builder}
use neo4j_mcp_canary.Graphutil.Success.{lift-bind_ok, require_ok, run_build_ok}
use neo4j_mcp_canary.Patterns.Connected.{check_connected}
use neo4j_mcp_canary.Patterns.MatchPattern.{
  collect_aliases, MatchPatternInput, alias_names, rel_ends, check_pattern, pattern_body,
  build_match_pattern,
}
use neo4j_mcp_canary.Patterns.Accepts.{WellConnected, check_connected_iff}

bind_ok :
    {A B : Type 0} (r : Result A) (f : A → Result B) (x : B)
    → (r >>=r f) ≡ ok x
    → (a : A) × (r ≡ ok a) × (f a ≡ ok x)
bind_ok (ok a) f x h = (a, refl, h)
bind_ok (err e) f x h = absurd (cc)

check_pattern_ok :
    (input : MatchPatternInput) (limit : ℤ)
    → check_pattern input ≡ ok limit
    → (1 ≤ length input.nodes)
      × (length input.nodes ≤ 6)
      × (length input.relationships ≤ 6)
      × WellConnected (alias_names input.nodes) (rel_ends input.relationships)
      × (pos 1 ≤ℤ limit)
      × (limit ≤ℤ pos 200)
unfolding check_pattern
check_pattern_ok input limit h =
    let names = alias_names input.nodes in
    let ends = rel_ends input.relationships in
    let small_enough = not (ltb 6 (length input.nodes) || ltb 6 (length input.relationships)) in
    let too_large = pattern_too_large (length input.nodes) (length input.relationships) in
    let in_range : Unit {0} → Result ℤ =
      λ c. int_in_range (codes "limit") input.limit (pos 25) (pos 1) (pos 200) in
    let links : List (Str × ℕ) → Result ℤ = λ m. check_connected names ends m >>=r in_range in
    let named : Unit {0} → Result ℤ = λ b. collect_aliases 0 names [] >>=r links in
    let sized : Unit {0} → Result ℤ = λ a. require small_enough too_large >>=r named in
    let (u, some_nodes, h1) =
      bind_ok (require (not (is_empty input.nodes)) nodes_required) sized limit h in
    let (u2, small, h2) = bind_ok (require small_enough too_large) named limit h1 in
    let (aliases, made, h3) = bind_ok (collect_aliases 0 names []) links limit h2 in
    let (u3, connected, h4) = bind_ok (check_connected names ends aliases) in_range limit h3 in
    let (lo, hi) =
      int_in_range_bounds (codes "limit") input.limit (pos 25) (pos 1) (pos 200) limit (omega arith)
        (omega arith) h4 in
    let bound = require_ok small_enough too_large u2 small in
    let nonempty = require_ok (not (is_empty input.nodes)) nodes_required u some_nodes in
    (
      not_empty input.nodes nonempty,
      ground arith,
      ground arith,
      (check_connected_iff (alias_names input.nodes) aliases made (rel_ends input.relationships)).0
          connected,
      lo,
      hi,
    )
  where
    not_empty : {A : Type 0} (xs : List A) → not (is_empty xs) ≡ true → 1 ≤ length xs
    not_empty [] e = absurd (cc)
    not_empty (x ∷ xs) e = omega arith

-- A match-pattern that builds a query has from 1 to 6 nodes and at most 6 relationships; no two
-- nodes have one alias, every relationship ends at nodes of the pattern, and a chain of
-- relationships links every node to the first one.
pub match_pattern_accepts :
    (input : MatchPatternInput) (q : Query)
    → build_match_pattern input ≡ ok q
    → (1 ≤ length input.nodes)
      × (length input.nodes ≤ 6)
      × (length input.relationships ≤ 6)
      × WellConnected (alias_names input.nodes) (rel_ends input.relationships)
unfolding build_match_pattern pattern_body
match_pattern_accepts input q h =
    let (d, c, made, same) = run_build_ok (pattern_body input) q h in
    let (limit, checked, rest) = lift-bind_ok _ _ new_builder (d, c) made in
    let (some_nodes, few_nodes, few_rels, connected, lo, hi) =
      check_pattern_ok input limit checked in
    (some_nodes, few_nodes, few_rels, connected)
