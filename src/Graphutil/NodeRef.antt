-- ===== src/Graphutil/NodeRef.antt =====
-- graphutil/noderef.go: the structured way in which every graph tool identifies nodes.
use neo4j_mcp_canary.Prelude.{Bool, true, false, not, ◌||◌, List, [], ◌∷◌, ◌++◌, if◌then◌else◌}
use neo4j_mcp_canary.Text.{Str, codes, concat, join, ◌==s◌}
use neo4j_mcp_canary.Graphutil.Value.{str, Params}
use neo4j_mcp_canary.Graphutil.Builder.{Build, ◌>>=◌, pure, lift, param}
use neo4j_mcp_canary.Graphutil.Quote.{label_expr}
use neo4j_mcp_canary.Graphutil.Filters.{Filter, filter_conditions, match_conditions}

pub record NodeRef : Type 0 where
  pub id : Str
  pub labels : List Str
  pub match : Params
  pub filters : List Filter

abbrev pub empty_ref : NodeRef
empty_ref = record { id = []; labels = []; match = []; filters = [] }

-- `len(xs) == 0`
abbrev pub is_empty {ℓ} : {A : Type ℓ} → List A → Bool
is_empty [] = true
is_empty (x ∷ xs) = false

-- NodeRef.HasPredicate
unfoldable pub has_predicate : NodeRef → Bool
has_predicate r = not (r.id ==s []) || not (is_empty r.match) || not (is_empty r.filters)

-- The condition on the id, if there is one.
unfoldable pub id_conditions : Str → Str → Build (List Str)
id_conditions var_expr id =
    if id ==s []
    then pure []
    else (param (str id) >>= λ p.
        pure (concat (codes "elementId(" ∷ var_expr ∷ codes ") = " ∷ p ∷ []) ∷ []))

-- NodeRef.Conditions
unfoldable pub conditions : NodeRef → Str → Build (List Str)
conditions r var_expr = id_conditions var_expr r.id >>= λ i.
    match_conditions var_expr r.match >>= λ m.
    filter_conditions var_expr r.filters >>= λ f. pure ((i ++ m) ++ f)

-- NodeRef.Pattern
unfoldable pub pattern_of : NodeRef → Str → Build (Str × List Str)
pattern_of r v = lift (label_expr r.labels) >>= λ labels.
    conditions r v >>= λ conds. pure (concat (codes "(" ∷ v ∷ labels ∷ codes ")" ∷ []), conds)

-- The end of `NodeRef.Inline`.
unfoldable pub inline_text : Str → Str → List Str → Str
inline_text v labels [] = concat (codes "(" ∷ v ∷ labels ∷ codes ")" ∷ [])
inline_text v labels (c ∷ cs) =
    concat
      (codes "(" ∷ v ∷ labels ∷ codes " WHERE " ∷ join (c ∷ cs) (codes " AND ") ∷ codes ")" ∷ [])

-- NodeRef.Inline
unfoldable pub inline_ref : NodeRef → Str → Build Str
inline_ref r v = lift (label_expr r.labels) >>= λ labels.
    conditions r v >>= λ conds. pure (inline_text v labels conds)
