-- ===== src/Graphutil/Projection.antt =====
-- graphutil/projection.go: result projections.
use neo4j_mcp_canary.Prelude.{List, [], ◌∷◌, ◌++◌, map}
use neo4j_mcp_canary.Text.{Str, codes, concat, join}
use neo4j_mcp_canary.Graphutil.Quote.{quote_identifier}

-- PropsExpr
unfoldable pub props_expr : Str → List Str → Str
props_expr var_expr [] = concat (codes "properties(" ∷ var_expr ∷ codes ")" ∷ [])
props_expr var_expr (p ∷ props) = concat (
    var_expr
    ∷ codes "{"
    ∷ join (map (λ q. codes "." ++ quote_identifier q) (p ∷ props)) (codes ", ")
    ∷ codes "}"
    ∷ [])

-- NodeMap
unfoldable pub node_map : Str → List Str → Str
node_map v props = concat (
    codes "{id: elementId("
    ∷ v
    ∷ codes "), labels: labels("
    ∷ v
    ∷ codes "), properties: "
    ∷ props_expr v props
    ∷ codes "}"
    ∷ [])

-- NodeSummary
unfoldable pub node_summary : Str → List Str → Str
node_summary v [] =
    concat (codes "{id: elementId(" ∷ v ∷ codes "), labels: labels(" ∷ v ∷ codes ")}" ∷ [])
node_summary v (p ∷ props) = node_map v (p ∷ props)

-- The part that RelMap and RelSummary share.
unfoldable pub rel_fields : Str → Str
rel_fields v = concat (
    codes "{id: elementId("
    ∷ v
    ∷ codes "), type: type("
    ∷ v
    ∷ codes "), from: elementId(startNode("
    ∷ v
    ∷ codes ")), to: elementId(endNode("
    ∷ v
    ∷ codes "))"
    ∷ [])

-- RelMap
unfoldable pub rel_map : Str → List Str → Str
rel_map v props =
    concat (rel_fields v ∷ codes ", properties: " ∷ props_expr v props ∷ codes "}" ∷ [])

-- RelSummary
unfoldable pub rel_summary : Str → Str
rel_summary v = rel_fields v ++ codes "}"

-- PathMap
unfoldable pub path_map : Str → List Str → Str
path_map p node_props = concat (
    codes "{length: length("
    ∷ p
    ∷ codes "), nodes: [x IN nodes("
    ∷ p
    ∷ codes ") | "
    ∷ node_summary (codes "x") node_props
    ∷ codes "], relationships: [x IN relationships("
    ∷ p
    ∷ codes ") | "
    ∷ rel_summary (codes "x")
    ∷ codes "]}"
    ∷ [])
