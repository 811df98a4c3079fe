-- ===== src/Graph/Common.antt =====
-- graph/common.go: matches, paging, and the guard round every mutation.
use neo4j_mcp_canary.Prelude.{Bool, ◌||◌, [], ◌∷◌, ◌++◌, if◌then◌else◌, ℤ, pos, ltb_int}
use neo4j_mcp_canary.Text.{Str, codes, concat, itoa_int, ◌==s◌, to_upper}
use neo4j_mcp_canary.Graphutil.Value.{int, str, Fields, end, field, Params}
use neo4j_mcp_canary.Graphutil.Error.{Result, ok, err, bad_order, bad_skip, property_key_empty}
use neo4j_mcp_canary.Graphutil.Builder.{Build, ◌>>=◌, pure, lift, param}
use neo4j_mcp_canary.Graphutil.Quote.{quote_identifier, is_blank, where_clause}
use neo4j_mcp_canary.Graphutil.NodeRef.{NodeRef, pattern_of}
use neo4j_mcp_canary.Graphutil.Limits.{int_in_range}
use neo4j_mcp_canary.Graphutil.Query.{Draft, read_draft}

-- nodeMatch
unfoldable pub node_match : NodeRef → Str → Build Str
node_match ref v =
    pattern_of ref v >>= λ p. pure (concat (codes "MATCH " ∷ p.0 ∷ where_clause p.1 ∷ []))

-- orderClause
unfoldable pub order_clause : Str → Str → Str → Result Str
order_clause v order_by direction =
    if order_by ==s []
    then ok []
    else if to_upper direction ==s [] || to_upper direction ==s codes "ASC"
    then ok (
        concat
          (codes "\nORDER BY " ∷ v ∷ codes "." ∷ quote_identifier order_by ∷ codes " ASC" ∷ []))
    else if to_upper direction ==s codes "DESC"
    then ok (
        concat
          (codes "\nORDER BY " ∷ v ∷ codes "." ∷ quote_identifier order_by ∷ codes " DESC" ∷ []))
    else err (bad_order direction)

-- The SKIP part of `pagination`.
unfoldable pub skip_clause : ℤ → Build Str
skip_clause skip =
    if ltb_int (pos 0) skip
    then (param (int skip) >>= λ p. pure (codes "\nSKIP " ++ p))
    else pure []

-- pagination
unfoldable pub pagination : ℤ → ℤ → Build Str
pagination limit skip =
    lift (int_in_range (codes "limit") limit (pos 25) (pos 1) (pos 200)) >>= λ l.
    (if ltb_int skip (pos 0) then lift (err (bad_skip skip)) else skip_clause skip) >>= λ out.
    param (int l) >>= λ p. pure (concat (out ∷ codes "\nLIMIT " ∷ p ∷ []))

-- resolveMaxAffected
unfoldable pub resolve_max_affected : ℤ → Result ℤ
resolve_max_affected n = int_in_range (codes "maxAffected") n (pos 1) (pos 1) (pos 1000)

-- refusalMessage
unfoldable pub refusal_message : Str → ℤ → Str
refusal_message entity max_affected = concat (
    codes "Nothing was changed: the match selected more "
    ∷ entity
    ∷ codes "s than maxAffected ("
    ∷ itoa_int max_affected
    ∷ codes "). Narrow the match (use id for one exact "
    ∷ entity
    ∷ codes
        "), or raise maxAffected if you really mean to change them all; set dryRun=true to preview first."
    ∷ [])

-- noMatchMessage
unfoldable pub no_match_message : Str → Str
no_match_message entity = concat (
    codes "Nothing was changed: no "
    ∷ entity
    ∷ codes
        " matched this selection. Check the id (node ids and relationship ids are different; look the right one up with find-"
    ∷ entity
    ∷ codes "s) or the labels, match and filters."
    ∷ [])

-- The text of `guardedMutation`, at its three placeholders.
unfoldable pub guarded_text : Str → Str → Str → Str → Str → Str → Str → Str → Str
guarded_text match_clause v mutation result_expr result_alias max_p refusal_p no_match_p = concat (
    match_clause
    ∷ codes "\nWITH collect("
    ∷ v
    ∷ codes ") AS items\nWITH items, size(items) AS matched\nWITH items, matched, matched <= "
    ∷ max_p
    ∷ codes
        " AS allowed\nCALL (items, allowed) {\n  UNWIND CASE WHEN allowed THEN items ELSE [] END AS "
    ∷ v
    ∷ codes "\n  "
    ∷ mutation
    ∷ codes "\n  RETURN "
    ∷ result_expr
    ∷ codes " AS "
    ∷ result_alias
    ∷ codes "\n}\nRETURN matched, allowed AND matched > 0 AS performed, "
    ∷ result_alias
    ∷ codes ", CASE WHEN matched = 0 THEN "
    ∷ no_match_p
    ∷ codes " WHEN allowed THEN null ELSE "
    ∷ refusal_p
    ∷ codes " END AS message"
    ∷ [])

-- guardedMutation
unfoldable pub guarded_mutation : Str → Str → Str → Str → Str → Str → ℤ → Build Str
guarded_mutation match_clause v mutation result_expr result_alias entity max_affected =
    param (int max_affected) >>= λ max_p.
    param (str (refusal_message entity max_affected)) >>= λ refusal_p.
    param (str (no_match_message entity)) >>= λ no_match_p.
    pure (guarded_text match_clause v mutation result_expr result_alias max_p refusal_p no_match_p)

-- dryRunQuery
unfoldable pub dry_run_query : Str → Str → Str
dry_run_query match_clause v = concat (
    match_clause
    ∷ codes "\nWITH count("
    ∷ v
    ∷ codes ") AS matched, collect(elementId("
    ∷ v
    ∷ codes
        "))[..10] AS sampleIds\nRETURN matched, sampleIds, false AS performed,\n  CASE WHEN matched = 0 THEN 'dryRun: nothing matched this selection, so a real call would change nothing' ELSE 'dryRun: nothing was changed' END AS message"
    ∷ [])

-- `if in.DryRun { return Query{Cypher: dryRunQuery(...)}, nil }`, and what follows it.
unfoldable pub unless_dry_run : Bool → Str → Str → Build Draft → Build Draft
unless_dry_run dry_run match_clause v rest =
    if dry_run then pure (read_draft (dry_run_query match_clause v)) else rest

-- checkPropertyKeys (node_create.go): the order of the keys does not show in the result.
unfoldable pub check_property_keys : Str → Params → Result (Unit {0})
check_property_keys name [] = ok tt
check_property_keys name ((k, v) ∷ props) =
    let rest = check_property_keys name props in
    if is_blank k then err (property_key_empty name) else rest

-- A map of parameters as one value.
abbrev pub fields_of : Params → Fields
fields_of [] = end
fields_of ((k, v) ∷ m) = field k v (fields_of m)
