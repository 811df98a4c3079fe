-- ===== src/Graphutil/Filters.antt =====
-- graphutil/filters.go: structured property predicates.
use neo4j_mcp_canary.Prelude.{
  ℕ, suc, Bool, true, false, not, ◌&&◌, ◌||◌, List, [], ◌∷◌, Option, none, some, if◌then◌else◌,
}
use neo4j_mcp_canary.Text.{Str, codes, concat, contains, ◌==s◌, trim_space, to_upper}
use neo4j_mcp_canary.Graphutil.Value.{Value, null, arr, Params, lookup, keys}
use neo4j_mcp_canary.Graphutil.Error.{
  err, filter_property_empty, filter_operator_unsupported, filter_value_required,
  filter_value_not_list, match_key_empty, match_value_null,
}
use neo4j_mcp_canary.Graphutil.Builder.{Build, ◌>>=◌, pure, lift, param}
use neo4j_mcp_canary.Graphutil.Quote.{quote_identifier, is_blank}
use neo4j_mcp_canary.Graphutil.Sort.{sort_strings}

pub record Filter : Type 0 where
  pub property : Str
  pub operator : Str
  pub value : Value

-- FilterOperators: each operator is mapped to itself.
abbrev pub filter_operators : List Str
filter_operators =
    codes "="
    ∷ codes "<>"
    ∷ codes "<"
    ∷ codes ">"
    ∷ codes "<="
    ∷ codes ">="
    ∷ codes "IN"
    ∷ codes "CONTAINS"
    ∷ codes "STARTS WITH"
    ∷ codes "ENDS WITH"
    ∷ codes "IS NULL"
    ∷ codes "IS NOT NULL"
    ∷ []

-- `v == nil`
abbrev pub is_null : Value → Bool
is_null null = true
is_null v = false

-- `_, isList := v.([]any)`
abbrev pub is_list : Value → Bool
is_list (arr xs) = true
is_list v = false

-- `strings.ToUpper(strings.TrimSpace(f.Operator))`
unfoldable pub operator_of : Filter → Str
operator_of f = to_upper (trim_space f.operator)

unfoldable pub is_null_test : Str → Bool
is_null_test op = op ==s codes "IS NULL" || op ==s codes "IS NOT NULL"

-- fmt.Sprintf("%s.%s", varExpr, QuoteIdentifier(key))
unfoldable pub property_ref : Str → Str → Str
property_ref var_expr key = concat (var_expr ∷ codes "." ∷ quote_identifier key ∷ [])

-- One round of `FilterConditions`, behind the tests of the property and of the operator.
unfoldable pub operator_condition : Str → ℕ → Filter → Build Str
operator_condition var_expr i f =
    let op = operator_of f in
    let prop = property_ref var_expr f.property in
    if is_null_test op
    then pure (concat (prop ∷ codes " " ∷ op ∷ []))
    else if is_null f.value
    then lift (err (filter_value_required i op))
    else if op ==s codes "IN" && not (is_list f.value)
    then lift (err (filter_value_not_list i))
    else (param f.value >>= λ p. pure (concat (prop ∷ codes " " ∷ op ∷ codes " " ∷ p ∷ [])))

-- One round of `FilterConditions`.
unfoldable pub filter_condition : Str → ℕ → Filter → Build Str
filter_condition var_expr i f =
    if is_blank f.property
    then lift (err (filter_property_empty i))
    else if contains filter_operators (operator_of f)
    then operator_condition var_expr i f
    else lift (err (filter_operator_unsupported i f.operator))

-- The loop of `FilterConditions`, at index `i`.
unfoldable pub filter_conditions_from : Str → ℕ → List Filter → Build (List Str)
filter_conditions_from var_expr i [] = pure []
filter_conditions_from var_expr i (f ∷ fs) = filter_condition var_expr i f >>= λ c.
    filter_conditions_from var_expr (suc i) fs >>= λ cs. pure (c ∷ cs)

-- FilterConditions
abbrev pub filter_conditions : Str → List Filter → Build (List Str)
filter_conditions var_expr filters = filter_conditions_from var_expr 0 filters

-- `match[k]`, with Go's nil for a missing key
abbrev pub value_at : Option Value → Value
value_at none = null
value_at (some v) = v

-- One round of `MatchConditions`.
unfoldable pub match_condition : Str → Params → Str → Build Str
match_condition var_expr match k =
    if is_blank k
    then lift (err match_key_empty)
    else if is_null (value_at (lookup k match))
    then lift (err (match_value_null k))
    else (param (value_at (lookup k match)) >>= λ p.
        pure (concat (property_ref var_expr k ∷ codes " = " ∷ p ∷ [])))

-- The loop of `MatchConditions` over the sorted keys.
unfoldable pub match_conditions_of : Str → Params → List Str → Build (List Str)
match_conditions_of var_expr match [] = pure []
match_conditions_of var_expr match (k ∷ ks) = match_condition var_expr match k >>= λ c.
    match_conditions_of var_expr match ks >>= λ cs. pure (c ∷ cs)

-- MatchConditions
unfoldable pub match_conditions : Str → Params → Build (List Str)
match_conditions var_expr match = match_conditions_of var_expr match (sort_strings (keys match))
