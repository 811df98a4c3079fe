-- ===== src/Graphutil/Quote.antt =====
-- graphutil/builder.go: identifier quoting, label and type expressions, WHERE.
pub mod ReadBack
use neo4j_mcp_canary.Prelude.{ℕ, Bool, List, [], ◌∷◌, ◌++◌, ◌==◌, if◌then◌else◌}
use neo4j_mcp_canary.Text.{Str, codes, ◌==s◌, join, trim_space}
use neo4j_mcp_canary.Graphutil.Error.{Error, Result, ok, err, blank_name, ◌>>=r◌}

abbrev pub backtick : ℕ
backtick = b'`'

-- strings.ReplaceAll(s, "`", "``")
unfoldable pub double_backticks : Str → Str
double_backticks [] = []
double_backticks (c ∷ s) =
    if c == backtick then backtick ∷ backtick ∷ double_backticks s else c ∷ double_backticks s

-- QuoteIdentifier
unfoldable pub quote_identifier : Str → Str
unfolding double_backticks
quote_identifier s = backtick ∷ (double_backticks s ++ backtick ∷ [])

-- `strings.TrimSpace(s) == ""`
unfoldable pub is_blank : Str → Bool
is_blank s = trim_space s ==s []

-- The loop of `joinQuoted`.
unfoldable pub quote_names : List Str → Str → Result (List Str)
quote_names [] what = ok []
quote_names (n ∷ names) what =
    let rest = quote_names names what >>=r λ quoted. ok (quote_identifier n ∷ quoted) in
    if is_blank n then err (blank_name what) else rest

-- joinQuoted
unfoldable pub join_quoted : Str → Str → List Str → Str → Result Str
join_quoted prefix sep [] what = ok []
join_quoted prefix sep (n ∷ names) what =
    quote_names (n ∷ names) what >>=r λ quoted. ok (prefix ++ join quoted sep)

-- LabelExpr
unfoldable pub label_expr : List Str → Result Str
unfolding join_quoted
label_expr labels = join_quoted (codes ":") (codes "&") labels (codes "label")

-- LabelList
unfoldable pub label_list : List Str → Result Str
unfolding join_quoted
label_list labels = join_quoted (codes ":") (codes ":") labels (codes "label")

-- TypeExpr
unfoldable pub type_expr : List Str → Result Str
unfolding join_quoted
type_expr types = join_quoted (codes ":") (codes "|") types (codes "relationship type")

-- Where
unfoldable pub where_clause : List Str → Str
where_clause [] = []
where_clause (c ∷ cs) = codes " WHERE " ++ join (c ∷ cs) (codes " AND ")
