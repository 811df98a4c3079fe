-- ===== src/Patterns/MatchPattern.antt =====
-- patterns/match_pattern.go: match-pattern.
use neo4j_mcp_canary.Prelude.{
  ℕ, suc, Bool, true, false, not, ◌||◌, List, [], ◌∷◌, ◌++◌, Option, none, some, length, ltb, ◌==◌,
  if◌then◌else◌, ℤ, pos,
}
use neo4j_mcp_canary.Text.{Str, codes, concat, join, ◌==s◌, trim_space}
use neo4j_mcp_canary.Graphutil.Value.{int, Params}
use neo4j_mcp_canary.Graphutil.Error.{
  Result, ok, err, ◌>>=r◌, require, context, context_at, nodes_required, pattern_too_large,
  alias_required, alias_duplicate, bad_mode,
}
use neo4j_mcp_canary.Graphutil.Builder.{Build, ◌>>=◌, pure, lift, param, wrapping}
use neo4j_mcp_canary.Graphutil.Quote.{quote_identifier, label_expr, type_expr, where_clause}
use neo4j_mcp_canary.Graphutil.NodeRef.{NodeRef, is_empty, conditions}
use neo4j_mcp_canary.Graphutil.Filters.{Filter, match_conditions, filter_conditions}
use neo4j_mcp_canary.Graphutil.Limits.{int_in_range, single_rel, outgoing, both}
use neo4j_mcp_canary.Graphutil.Projection.{node_map, rel_summary}
use neo4j_mcp_canary.Graphutil.Query.{Query, Draft, read_draft, run_build}
use neo4j_mcp_canary.Patterns.Common.{rel_var, labelled}
use neo4j_mcp_canary.Patterns.Connected.{Ends, index_of, check_connected}

pub record PatternNode : Type 0 where
  pub alias : Str
  pub ref : NodeRef

pub record PatternRel : Type 0 where
  pub from : Str
  pub to : Str
  pub types : List Str
  pub undirected : Bool
  pub matching : Params
  pub filters : List Filter

pub record MatchPatternInput : Type 0 where
  pub nodes : List PatternNode
  pub relationships : List PatternRel
  pub mode : Str
  pub return_properties : List Str
  pub allow_same_node : Bool
  pub limit : ℤ

unfoldable pub alias_names : List PatternNode → List Str
alias_names [] = []
alias_names (n ∷ ns) = n.alias ∷ alias_names ns

unfoldable pub rel_ends : List PatternRel → List Ends
rel_ends [] = []
rel_ends (r ∷ rs) = record { from = r.from; to = r.to } ∷ rel_ends rs

-- `if _, dup := aliases[n.Alias]; dup`
abbrev pub is_defined : Option ℕ → Bool
is_defined none = false
is_defined (some i) = true

-- The loop that fills `aliases`, at index `i`.
unfoldable pub collect_aliases : ℕ → List Str → List (Str × ℕ) → Result (List (Str × ℕ))
collect_aliases i [] aliases = ok aliases
collect_aliases i (a ∷ names) aliases =
    let rest = collect_aliases (suc i) names ((a, i) ∷ aliases) in
    if trim_space a ==s []
    then err (alias_required i)
    else if is_defined (index_of a aliases)
    then err (alias_duplicate a)
    else rest

-- What one round of the loop over the nodes appends to `conds`.
unfoldable pub pattern_node : PatternNode → Build (List Str)
pattern_node n = wrapping (context n.alias) (lift (label_expr n.ref.labels)) >>= λ labels.
    wrapping (context n.alias) (conditions n.ref (quote_identifier n.alias)) >>= λ c.
    pure (labelled (quote_identifier n.alias) labels ++ c)

unfoldable pub pattern_nodes : List PatternNode → Build (List Str)
pattern_nodes [] = pure []
pattern_nodes (n ∷ ns) = pattern_node n >>= λ c. pattern_nodes ns >>= λ r. pure (c ++ r)

-- The inner loop of the conditions that tell the nodes apart.
unfoldable pub apart_from : Str → List Str → List Str
apart_from a [] = []
apart_from a (b ∷ names) =
    concat (quote_identifier a ∷ codes " <> " ∷ quote_identifier b ∷ []) ∷ apart_from a names

unfoldable pub pairwise_apart : List Str → List Str
unfolding apart_from
pairwise_apart [] = []
pairwise_apart (a ∷ names) = apart_from a names ++ pairwise_apart names

-- What one round of the loop over the relationships appends to `patterns` and to `conds`.
unfoldable pub pattern_rel : ℕ → PatternRel → Build (Str × List Str)
pattern_rel i r =
    wrapping (context_at (codes "relationships") i) (lift (type_expr r.types)) >>= λ types.
    lift (single_rel (if r.undirected then both else outgoing) (rel_var i) types) >>= λ rel.
    wrapping (context_at (codes "relationships") i) (match_conditions (rel_var i) r.matching)
    >>= λ m.
        wrapping (context_at (codes "relationships") i) (filter_conditions (rel_var i) r.filters)
        >>= λ f. pure (
          concat (
              codes "("
              ∷ quote_identifier r.from
              ∷ codes ")"
              ∷ rel
              ∷ codes "("
              ∷ quote_identifier r.to
              ∷ codes ")"
              ∷ []),
          m ++ f,
        )

unfoldable pub pattern_rels : ℕ → List PatternRel → Build (List Str × List Str)
pattern_rels i [] = pure ([], [])
pattern_rels i (r ∷ rs) =
    pattern_rel i r >>= λ p. pattern_rels (suc i) rs >>= λ q. pure (p.0 ∷ q.0, p.1 ++ q.1)

-- `if len(patterns) == 0 { patterns = append(patterns, ...) }`, for the aliases of the nodes
abbrev pub or_first : List Str → List Str → List Str
or_first [] [] = []
or_first [] (a ∷ names) = concat (codes "(" ∷ quote_identifier a ∷ codes ")" ∷ []) ∷ []
or_first (p ∷ patterns) names = p ∷ patterns

-- `entries`
unfoldable pub node_entries : List Str → List Str → List Str
node_entries props [] = []
node_entries props (a ∷ names) =
    concat (quote_identifier a ∷ codes ": " ∷ node_map (quote_identifier a) props ∷ [])
    ∷ node_entries props names

-- `rels`
unfoldable pub rel_entries : ℕ → List PatternRel → List Str
rel_entries i [] = []
rel_entries i (r ∷ rs) = rel_summary (rel_var i) ∷ rel_entries (suc i) rs

-- strings.ReplaceAll(match, "\n", "\n  ")
unfoldable pub indent : Str → Str
indent [] = []
indent (c ∷ s) = let rest = indent s in if c == 10 then c ∷ b' ' ∷ b' ' ∷ rest else c ∷ rest

unfoldable pub rows_query : MatchPatternInput → ℤ → Str → Build Draft
rows_query input limit text = param (int limit) >>= λ l. pure (
    read_draft (
      concat (
        text
        ∷ codes "\nRETURN {"
        ∷ join (node_entries input.return_properties (alias_names input.nodes)) (codes ", ")
        ∷ codes "} AS nodes, ["
        ∷ join (rel_entries 0 input.relationships) (codes ", ")
        ∷ codes "] AS relationships\nLIMIT "
        ∷ l
        ∷ [])))

-- The cases of the switch that bind no parameter.
unfoldable pub count_or_exists : Str → Str → Result Draft
count_or_exists mode text =
    if mode ==s codes "count"
    then ok (read_draft (text ++ codes "\nRETURN count(*) AS count"))
    else if mode ==s codes "exists"
    then ok (
        read_draft
          (concat (codes "RETURN EXISTS {\n  " ∷ indent text ∷ codes "\n} AS exists" ∷ [])))
    else err (bad_mode mode)

-- The switch on the mode.
unfoldable pub mode_case : MatchPatternInput → ℤ → Str → Build Draft
mode_case input limit text =
    if input.mode ==s [] || input.mode ==s codes "rows"
    then rows_query input limit text
    else lift (count_or_exists input.mode text)

-- The checks before the builder is made; the value is the limit.
unfoldable pub check_pattern : MatchPatternInput → Result ℤ
check_pattern input =
    let names = alias_names input.nodes in
    require (not (is_empty input.nodes)) nodes_required >>=r λ a.
    require (not (ltb 6 (length input.nodes) || ltb 6 (length input.relationships)))
      (pattern_too_large (length input.nodes) (length input.relationships))
    >>=r λ b. collect_aliases 0 names [] >>=r λ aliases.
        check_connected names (rel_ends input.relationships) aliases >>=r λ c.
        int_in_range (codes "limit") input.limit (pos 25) (pos 1) (pos 200)

unfoldable pub pattern_body : MatchPatternInput → Build Draft
pattern_body input = lift (check_pattern input) >>= λ limit. pattern_nodes input.nodes >>= λ c.
    pattern_rels 0 input.relationships >>= λ p. mode_case input limit (
      concat (
        codes "MATCH "
        ∷ join (or_first p.0 (alias_names input.nodes)) (codes ", ")
        ∷ where_clause (
            (c ++ (if input.allow_same_node then [] else pairwise_apart (alias_names input.nodes)))
            ++ p.1)
        ∷ []))

-- buildMatchPattern
unfoldable pub build_match_pattern : MatchPatternInput → Result Query
unfolding pattern_body
build_match_pattern input = run_build (pattern_body input)
