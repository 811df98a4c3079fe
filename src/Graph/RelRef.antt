-- ===== src/Graph/RelRef.antt =====
-- graph/rel_ref.go: the selection of relationships.
use neo4j_mcp_canary.Prelude.{
  Bool, false, not, ◌||◌, List, [], ◌∷◌, ◌++◌, Option, none, some, if◌then◌else◌,
}
use neo4j_mcp_canary.Text.{Str, codes, concat, ◌==s◌}
use neo4j_mcp_canary.Graphutil.Value.{Params}
use neo4j_mcp_canary.Graphutil.Error.{context}
use neo4j_mcp_canary.Graphutil.Builder.{Build, ◌>>=◌, pure, wrapping}
use neo4j_mcp_canary.Graphutil.Quote.{quote_identifier, where_clause}
use neo4j_mcp_canary.Graphutil.Filters.{Filter, filter_conditions, match_conditions}
use neo4j_mcp_canary.Graphutil.NodeRef.{NodeRef, is_empty, has_predicate, id_conditions, pattern_of}
use neo4j_mcp_canary.Traversal.Expand.{or_empty}

pub record RelRef : Type 0 where
  pub id : Str
  pub type : Str
  pub from : Option NodeRef
  pub to : Option NodeRef
  pub match : Params
  pub filters : List Filter

-- `p != nil && p.HasPredicate()`
abbrev pub optional_has_predicate : Option NodeRef → Bool
optional_has_predicate none = false
optional_has_predicate (some r) = has_predicate r

-- RelRef.HasPredicate
unfoldable pub rel_has_predicate : RelRef → Bool
rel_has_predicate r =
    not (r.id ==s [])
    || not (is_empty r.match)
    || not (is_empty r.filters)
    || optional_has_predicate r.from
    || optional_has_predicate r.to

-- `":" + QuoteIdentifier(t)`, or nothing for an empty type
unfoldable pub optional_type : Str → Str
optional_type t = if t ==s [] then [] else b':' ∷ quote_identifier t

-- RelRef.matchClause
unfoldable pub rel_match : RelRef → Build Str
rel_match r =
    wrapping (context (codes "from")) (pattern_of (or_empty r.from) (codes "src")) >>= λ src.
    wrapping (context (codes "to")) (pattern_of (or_empty r.to) (codes "dst")) >>= λ dst.
    id_conditions (codes "r") r.id >>= λ i. match_conditions (codes "r") r.match >>= λ m.
    filter_conditions (codes "r") r.filters >>= λ f. pure (
      concat (
        codes "MATCH "
        ∷ src.0
        ∷ codes "-[r"
        ∷ optional_type r.type
        ∷ codes "]->"
        ∷ dst.0
        ∷ where_clause ((((src.1 ++ dst.1) ++ i) ++ m) ++ f)
        ∷ []))
