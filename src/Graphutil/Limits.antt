-- ===== src/Graphutil/Limits.antt =====
-- graphutil/limits.go: bounds on the callers' numbers, and relationship patterns.
use neo4j_mcp_canary.Prelude.{◌||◌, [], ◌∷◌, ◌≡◌, arith, if◌then◌else◌, ℤ, ◌≤ℤ◌, ltb_int, is_zero}
use neo4j_mcp_canary.Text.{Str, codes, concat, itoa_int, ◌==s◌}
use neo4j_mcp_canary.Graphutil.Error.{Result, ok, err, out_of_range, bad_direction}

-- IntInRange
unfoldable pub int_in_range : Str → ℤ → ℤ → ℤ → ℤ → Result ℤ
int_in_range name n def lo hi =
    if is_zero n
    then ok def
    else if ltb_int n lo || ltb_int hi n
    then err (out_of_range name lo hi n def)
    else ok n

-- An accepted number lies in the range, whatever the caller sent, if the default does.
pub int_in_range_bounds :
    (name : Str) (n def lo hi r : ℤ)
    → lo ≤ℤ def
    → def ≤ℤ hi
    → int_in_range name n def lo hi ≡ ok r
    → (lo ≤ℤ r) × (r ≤ℤ hi)
unfolding int_in_range
int_in_range_bounds name n def lo hi r hl hh e = ground arith

abbrev pub outgoing : Str
outgoing = codes "OUTGOING"

abbrev pub incoming : Str
incoming = codes "INCOMING"

abbrev pub both : Str
both = codes "BOTH"

-- The three arrows round the inside of a relationship pattern, with what stands behind each.
unfoldable pub arrow : Str → Str → Str → Result Str
arrow direction inside tail =
    if direction ==s outgoing || direction ==s []
    then ok (concat (codes "-[" ∷ inside ∷ codes "]->" ∷ tail ∷ []))
    else if direction ==s incoming
    then ok (concat (codes "<-[" ∷ inside ∷ codes "]-" ∷ tail ∷ []))
    else if direction ==s both
    then ok (concat (codes "-[" ∷ inside ∷ codes "]-" ∷ tail ∷ []))
    else err (bad_direction direction)

-- QuantifiedRel
unfoldable pub quantified_rel : Str → Str → ℤ → ℤ → Result Str
quantified_rel direction type_expr min_depth max_depth =
    arrow direction type_expr
      (concat (codes "{" ∷ itoa_int min_depth ∷ codes "," ∷ itoa_int max_depth ∷ codes "}" ∷ []))

-- SingleRel
unfoldable pub single_rel : Str → Str → Str → Result Str
single_rel direction rel_var type_expr = arrow direction (concat (rel_var ∷ type_expr ∷ [])) []
