-- ===== src/Examples.antt =====
-- The theorems at concrete inputs.
pub mod Server
pub mod Custom
use neo4j_mcp_canary.Prelude.{
  ℕ, true, false, List, [], ◌∷◌, ◌++◌, none, some, ◌≡◌, ◌⊎◌, ◌↔◌, refl, arith, pos, ◌≤◌, ◌≤ℤ◌, All,
  inr, Memᴰ,
}
use neo4j_mcp_canary.Text.{
  Str, codes, ◌==s◌, trim_space, trim_left, trim_right, is_space, join, join_rest,
}
use neo4j_mcp_canary.Graphutil.Value.{Value, str, int, lookup}
use neo4j_mcp_canary.Graphutil.Error.{Result, ok, err}
use neo4j_mcp_canary.Graphutil.Builder.{
  new_builder, add_param, param_name, ◌>>=◌, lift, pure, param, wrapping, Builder,
}
use neo4j_mcp_canary.Graphutil.Builder.Fresh.{IsSequential, add_param_fresh}
use neo4j_mcp_canary.Graphutil.Quote.{
  quote_identifier, quote_names, join_quoted, double_backticks, is_blank, label_expr, type_expr,
}
use neo4j_mcp_canary.Graphutil.Quote.ReadBack.{
  read_identifier, read_names, leads, read-quote_identifier, read-join_quoted, NotBlank,
}
use neo4j_mcp_canary.Graphutil.Filters.{
  filter_conditions_from, match_conditions, match_conditions_of,
}
use neo4j_mcp_canary.Graphutil.Sort.{sort_strings}
use neo4j_mcp_canary.Graphutil.NodeRef.{
  NodeRef, empty_ref, has_predicate, id_conditions, conditions, pattern_of, inline_ref,
}
use neo4j_mcp_canary.Graphutil.Limits.{int_in_range, int_in_range_bounds, single_rel, arrow}
use neo4j_mcp_canary.Graphutil.Query.{Query, run_build, statement}
use neo4j_mcp_canary.Traversal.Common.{resolve_depths, resolve_min_depth, resolve_depths_bounds}
use neo4j_mcp_canary.Graph.Common.{
  node_match, resolve_max_affected, guarded_mutation, unless_dry_run, check_property_keys,
}
use neo4j_mcp_canary.Graph.Nodes.{
  DeleteNodeInput, build_delete_node, delete_node_body, UpdateNodeInput, build_update_node,
  update_node_body, update_node_steps, set_step, removed_properties, labels_of,
}
use neo4j_mcp_canary.Graph.RelRef.{RelRef, rel_has_predicate, rel_match}
use neo4j_mcp_canary.Graph.Relationships.{
  DeleteRelationshipInput, build_delete_relationship, delete_relationship_body,
  UpdateRelationshipInput, build_update_relationship, update_relationship_body,
  update_relationship_steps,
}
use neo4j_mcp_canary.Graph.Selection.{Selects, RelSelects}
use neo4j_mcp_canary.Graph.Narrowing.{Narrowed}
use neo4j_mcp_canary.Graph.Wording.{
  node_wording, relationship_wording, PreviewsOnly, MutatesGuarded,
}
use neo4j_mcp_canary.Graph.Guards.Nodes.{UpdatesNodes, delete_node_guard, update_node_guard}
use neo4j_mcp_canary.Graph.Guards.Relationships.{
  UpdatesRelationships, delete_relationship_guard, update_relationship_guard,
}
use neo4j_mcp_canary.Patterns.Connected.{
  Ends, index_of, find, unite, unite_all, check_roots, check_root, identity_from, check_connected,
}
use neo4j_mcp_canary.Patterns.MatchPattern.{
  PatternNode, PatternRel, MatchPatternInput, alias_names, rel_ends, collect_aliases, check_pattern,
  pattern_body, build_match_pattern, pattern_nodes, pattern_node, pattern_rels, pattern_rel,
  mode_case, rows_query,
}
use neo4j_mcp_canary.Patterns.Accepts.{WellConnected, check_connected_iff}
use neo4j_mcp_canary.Patterns.Accepts.Pattern.{match_pattern_accepts}
use neo4j_mcp_canary.Tools.{match_pattern, build_tool, erase_tool, tool_values}
use neo4j_mcp_canary.Text.{has_prefix, trim_left, to_upper, upper}
use neo4j_mcp_canary.Database.Keyword.{
  strip_leading, strip_rounds, comment_round, until_space, first_keyword,
}
use neo4j_mcp_canary.Database.Classify.{Driver, get_query_type, PlainRead, executed_plain}
use neo4j_mcp_canary.Text.Search.{has_substring}
use neo4j_mcp_canary.Database.Keyword.Stripped.{Stripped}
use neo4j_mcp_canary.Database.Keyword.Exact.{strip_leading_iff}
use neo4j_mcp_canary.Cypher.ReadCypher.{
  Service, Dependencies, ReadCypherInput, read_only, handle_read_cypher,
}
use neo4j_mcp_canary.Cypher.ReadCypher.Gate.{Outcome, Admitted, read_cypher_gate}

abbrev no_query : Query
no_query = record { cypher = []; params = []; write = false; error_hint = [] }

abbrev query_of : Result Query → Query
query_of (ok q) = q
query_of (err e) = no_query

abbrev by_id : NodeRef
by_id = record empty_ref { id = codes "4:x:1" }

abbrev delete_input : DeleteNodeInput
delete_input = record { ref = by_id; detach = true; max_affected = pos 0; dry_run = false }

delete_node_guard_example :
    Selects by_id
    × (match : Str) × (b : Builder) × (node_match by_id (codes "n") new_builder ≡ ok (match, b))
    × Narrowed 1 match
    × (((delete_input.dry_run ≡ true)
          × PreviewsOnly node_wording match (query_of (build_delete_node delete_input)))
        ⊎ ((delete_input.dry_run ≡ false)
            × MutatesGuarded node_wording match
                (codes "DETACH DELETE n")
                (codes "count(*)")
                (codes "deleted")
                (pos 0)
                (query_of (build_delete_node delete_input))))
unfolding build_delete_node delete_node_body has_predicate ◌==s◌ ◌>>=◌ lift pure param
    resolve_max_affected int_in_range node_match pattern_of label_expr join_quoted conditions
    id_conditions match_conditions match_conditions_of filter_conditions_from sort_strings
    unless_dry_run guarded_mutation run_build
delete_node_guard_example =
    delete_node_guard delete_input (query_of (build_delete_node delete_input)) refl

abbrev rename_input : UpdateNodeInput
rename_input = record {
  ref = by_id;
  set = (codes "name", str (codes "x")) ∷ [];
  remove = [];
  add_labels = [];
  remove_labels = [];
  max_affected = pos 5;
  dry_run = false;
}

update_node_guard_example :
    Selects by_id
    × (match : Str) × (b : Builder) × (node_match by_id (codes "n") new_builder ≡ ok (match, b))
    × Narrowed 1 match
    × UpdatesNodes rename_input match b (query_of (build_update_node rename_input))
unfolding build_update_node update_node_body update_node_steps set_step removed_properties labels_of
    check_property_keys is_blank trim_space trim_left trim_right is_space has_predicate ◌==s◌ ◌>>=◌
    lift pure param resolve_max_affected int_in_range node_match pattern_of label_expr join_quoted
    conditions id_conditions match_conditions match_conditions_of filter_conditions_from
    sort_strings unless_dry_run guarded_mutation run_build
update_node_guard_example =
    update_node_guard rename_input (query_of (build_update_node rename_input)) refl

abbrev rel_by_id : RelRef
rel_by_id = record {
  id = codes "5:x:1";
  type = [];
  from = none;
  to = none;
  match = [];
  filters = [];
}

abbrev delete_rel_input : DeleteRelationshipInput
delete_rel_input = record { ref = rel_by_id; max_affected = pos 0; dry_run = true }

delete_relationship_guard_example :
    RelSelects rel_by_id
    × (match : Str) × (b : Builder) × (rel_match rel_by_id new_builder ≡ ok (match, b))
    × Narrowed 1 match
    × (((delete_rel_input.dry_run ≡ true)
          × PreviewsOnly relationship_wording match
              (query_of (build_delete_relationship delete_rel_input)))
        ⊎ ((delete_rel_input.dry_run ≡ false)
            × MutatesGuarded relationship_wording match
                (codes "DELETE r")
                (codes "count(*)")
                (codes "deleted")
                (pos 0)
                (query_of (build_delete_relationship delete_rel_input))))
unfolding build_delete_relationship delete_relationship_body rel_has_predicate rel_match type_expr
    wrapping single_rel arrow ◌==s◌ ◌>>=◌ lift pure param resolve_max_affected int_in_range
    pattern_of label_expr inline_ref join_quoted conditions id_conditions match_conditions
    match_conditions_of filter_conditions_from sort_strings unless_dry_run guarded_mutation
    run_build
delete_relationship_guard_example =
    delete_relationship_guard delete_rel_input
      (query_of (build_delete_relationship delete_rel_input)) refl

abbrev update_rel_input : UpdateRelationshipInput
update_rel_input = record {
  ref = rel_by_id;
  set = [];
  remove = codes "since" ∷ [];
  max_affected = pos 0;
  dry_run = false;
}

update_relationship_guard_example :
    RelSelects rel_by_id
    × (match : Str) × (b : Builder) × (rel_match rel_by_id new_builder ≡ ok (match, b))
    × Narrowed 1 match
    × UpdatesRelationships update_rel_input match b
        (query_of (build_update_relationship update_rel_input))
unfolding build_update_relationship update_relationship_body update_relationship_steps set_step
    removed_properties check_property_keys is_blank trim_space trim_left trim_right is_space
    rel_has_predicate rel_match type_expr wrapping single_rel arrow ◌==s◌ ◌>>=◌ lift pure param
    resolve_max_affected int_in_range pattern_of label_expr inline_ref join_quoted conditions
    id_conditions match_conditions match_conditions_of filter_conditions_from sort_strings
    unless_dry_run guarded_mutation run_build
update_relationship_guard_example =
    update_relationship_guard update_rel_input
      (query_of (build_update_relationship update_rel_input)) refl

abbrev two_nodes : List PatternNode
two_nodes =
    record { alias = codes "p"; ref = empty_ref } ∷ record { alias = codes "c"; ref = by_id } ∷ []

abbrev one_rel : List PatternRel
one_rel =
    record {
      from = codes "p";
      to = codes "c";
      types = [];
      undirected = false;
      matching = [];
      filters = [];
    }
    ∷ []

abbrev pattern_input : MatchPatternInput
pattern_input = record {
  nodes = two_nodes;
  relationships = one_rel;
  mode = [];
  return_properties = [];
  allow_same_node = false;
  limit = pos 0;
}

abbrev two_names : List Str
two_names = codes "p" ∷ codes "c" ∷ []

abbrev one_end : List Ends
one_end = record { from = codes "p"; to = codes "c" } ∷ []

check_connected_iff_example :
    (check_connected two_names one_end ((codes "c", 1) ∷ (codes "p", 0) ∷ []) ≡ ok tt)
    ↔ WellConnected two_names one_end
unfolding collect_aliases trim_space trim_left trim_right is_space ◌==s◌ index_of
check_connected_iff_example =
    check_connected_iff two_names ((codes "c", 1) ∷ (codes "p", 0) ∷ []) refl one_end

match_pattern_accepts_example :
    (1 ≤ 2) × (2 ≤ 6) × (1 ≤ 6) × WellConnected (alias_names two_nodes) (rel_ends one_rel)
unfolding build_match_pattern pattern_body check_pattern collect_aliases trim_space trim_left
    trim_right is_space ◌==s◌ index_of alias_names rel_ends check_connected unite_all unite find
    check_root check_roots identity_from int_in_range pattern_nodes pattern_node pattern_rels
    pattern_rel mode_case rows_query type_expr wrapping single_rel arrow ◌>>=◌ lift pure param
    label_expr join_quoted conditions id_conditions match_conditions match_conditions_of
    filter_conditions_from sort_strings run_build
match_pattern_accepts_example =
    match_pattern_accepts pattern_input (query_of (build_match_pattern pattern_input)) refl

tool_values_example :
    statement (build_tool (erase_tool (match_pattern pattern_input)))
    ≡ statement (build_tool (match_pattern pattern_input))
tool_values_example = tool_values (match_pattern pattern_input)

add_param_fresh_example :
    ((add_param (int (pos 7)) new_builder).0 ≡ b'$' ∷ param_name 0)
    × (lookup (param_name 0) (add_param (int (pos 7)) new_builder).1.params ≡ some (int (pos 7)))
    × ((k : Str) (w : Value)
        → lookup k [] ≡ some w
        → lookup k (add_param (int (pos 7)) new_builder).1.params ≡ some w)
    × IsSequential (add_param (int (pos 7)) new_builder).1
add_param_fresh_example = add_param_fresh (int (pos 7)) new_builder tt

read-quote_identifier_example :
    read_identifier (quote_identifier (codes "a`b") ++ codes ".x") ≡ some (codes "a`b", codes ".x")
read-quote_identifier_example = read-quote_identifier (codes "a`b") (codes ".x") refl

read-join_quoted_example :
    (read_names (leads 58 38 (codes "A" ∷ codes "b`" ∷ [])) (codes ":`A`&`b```" ++ codes ")")
      ≡ some (codes "A" ∷ codes "b`" ∷ [], codes ")"))
    × All NotBlank (codes "A" ∷ codes "b`" ∷ [])
unfolding join_quoted quote_names is_blank trim_space trim_left trim_right is_space ◌==s◌
    quote_identifier double_backticks join join_rest
read-join_quoted_example =
    read-join_quoted 58 38 (codes "A" ∷ codes "b`" ∷ []) (codes "label") (codes ":`A`&`b```")
      (codes ")") refl refl refl

int_in_range_bounds_example : (pos 1 ≤ℤ pos 7) × (pos 7 ≤ℤ pos 200)
unfolding int_in_range
int_in_range_bounds_example =
    int_in_range_bounds (codes "limit") (pos 7) (pos 25) (pos 1) (pos 200) (pos 7) (omega arith)
      (omega arith) refl

resolve_depths_bounds_example : (pos 1 ≤ℤ pos 2) × (pos 2 ≤ℤ pos 4) × (pos 4 ≤ℤ pos 6)
unfolding resolve_depths resolve_min_depth int_in_range
resolve_depths_bounds_example =
    resolve_depths_bounds (pos 2) (pos 4) (pos 2) (pos 6) (pos 2) (pos 4) (omega arith)
      (omega arith) refl

strip_leading_iff_example :
    (strip_leading (codes " /* a */ MATCH") ≡ codes "MATCH")
    ↔ Stripped (codes " /* a */ MATCH") (codes "MATCH")
unfolding has_substring has_prefix
strip_leading_iff_example = strip_leading_iff (codes " /* a */ MATCH") (codes "MATCH") refl

-- A service that classifies every query as read-only, estimates 7 rows and returns 2.
abbrev small_service : Service ℕ
small_service = record {
  get_query_type = λ q p. inr read_only;
  estimate_row_count = λ q p. inr (pos 7);
  execute_read = λ q p rows bytes. inr 2;
  report_of = λ n. record { row_count = n; truncated = false };
  result_to_json = λ n. inr (codes "[]");
  encode_output = λ s. inr s;
}

abbrev small_deps : Dependencies ℕ
small_deps = record {
  service = small_service;
  analytics_enabled = true;
  max_estimated_rows = pos 10;
  max_rows = pos 100;
  max_bytes = pos 1000;
}

abbrev small_request : Str ⊎ ReadCypherInput
small_request = inr (record { query = codes "MATCH (n) RETURN n"; params = [] })

read_cypher_gate_example :
    Outcome (Admitted small_deps small_request) (handle_read_cypher (inr small_deps) small_request)
read_cypher_gate_example = read_cypher_gate small_deps small_request

abbrev reading_driver : Driver
reading_driver = λ q p. inr (some read_only)

abbrev driver_deps : Dependencies ℕ
driver_deps = record small_deps {
  service = record small_service { get_query_type = get_query_type (λ e. e) reading_driver };
}

abbrev match_query : ReadCypherInput
match_query = record { query = codes "MATCH (n) RETURN n"; params = [] }

executed_plain_example :
    (codes "MATCH (n) RETURN n" ≡ codes "MATCH (n) RETURN n")
    × ([] ≡ match_query.params)
    × PlainRead reading_driver (codes "MATCH (n) RETURN n") []
unfolding handle_read_cypher get_query_type first_keyword until_space strip_leading strip_rounds
    comment_round has_prefix trim_left is_space to_upper upper ◌==s◌ has_substring
executed_plain_example =
    executed_plain driver_deps (λ e. e) reading_driver match_query (codes "MATCH (n) RETURN n") []
      refl refl (Memᴰ.tail (Memᴰ.tail (Memᴰ.head refl)))
