-- ===== src/Server/Middleware/Chain.antt =====
-- server/middleware.go: the middleware that rejects nothing on its credentials, and chainMiddleware.
use neo4j_mcp_canary.Prelude.{◌&&◌, not, List, [], ◌∷◌, ◌++◌, Option, none, some, if◌then◌else◌}
use neo4j_mcp_canary.Text.{Str, codes, ◌==s◌, contains, join}
use neo4j_mcp_canary.Text.Search.{equal_fold}
use neo4j_mcp_canary.Auth.{EmbeddingConfig, with_tool_selection, with_embedding_config}
use neo4j_mcp_canary.Server.Http.{
  Headers, header_get, header_set, Request, Decoders, Answer, Handler, no_content, http_error,
}
use neo4j_mcp_canary.Server.Middleware.{Config, parse_comma_list, auth_middleware}

-- toolSelectionMiddleware
abbrev pub tool_selection_middleware : Str → Str → Handler → Handler
tool_selection_middleware names_header categories_header next headers r = next headers (record r {
  context =
      with_tool_selection r.context (parse_comma_list (header_get r.headers names_header))
        (parse_comma_list (header_get r.headers categories_header));
})

-- embeddingConfigMiddleware
abbrev pub embedding_config_middleware : Option EmbeddingConfig → Handler → Handler
embedding_config_middleware none next headers r = next headers r
embedding_config_middleware (some cfg) next headers r =
    next headers (record r { context = with_embedding_config r.context cfg })

abbrev pub non_empty : List Str → List Str
non_empty [] = []
non_empty (h ∷ hs) = let rest = non_empty hs in if h ==s [] then rest else h ∷ rest

-- The value of Access-Control-Allow-Headers, in parts.
unfoldable pub allowed_headers : Str → List Str → List Str
unfolding equal_fold
allowed_headers auth_header_name selection_headers =
    codes "Content-Type"
    ∷ codes "Authorization"
    ∷ ((if not (auth_header_name ==s [])
            && not (equal_fold auth_header_name (codes "Authorization"))
          then auth_header_name ∷ []
          else [])
        ++ non_empty selection_headers)

unfoldable pub allow_origin : List Str → Str → Headers → Headers
unfolding contains
allow_origin origins origin headers =
    if contains origins (codes "*")
    then header_set headers (codes "Access-Control-Allow-Origin") (codes "*")
    else if not (origin ==s []) && contains origins origin
    then header_set headers (codes "Access-Control-Allow-Origin") origin
    else headers

unfoldable pub cors_headers : List Str → Str → List Str → Headers → Request → Headers
unfolding allow_origin allowed_headers
cors_headers origins auth_header_name selection_headers headers r =
    header_set
      (header_set
        (header_set (allow_origin origins (header_get r.headers (codes "Origin")) headers)
          (codes "Access-Control-Allow-Methods") (codes "GET, POST, OPTIONS"))
        (codes "Access-Control-Allow-Headers")
        (join (allowed_headers auth_header_name selection_headers) (codes ", ")))
      (codes "Access-Control-Max-Age") (codes "86400")

abbrev pub after_cors : Handler → Headers → Request → Answer
after_cors next headers r =
    if r.method ==s codes "OPTIONS" then no_content headers else next headers r

-- corsMiddleware
abbrev pub cors_middleware : List Str → Str → List Str → Handler → Handler
cors_middleware [] auth_header_name selection_headers next headers r = next headers r
cors_middleware (o ∷ os) auth_header_name selection_headers next headers r =
    after_cors next (cors_headers (o ∷ os) auth_header_name selection_headers headers r) r

-- pathValidationMiddleware
abbrev pub path_validation_middleware : Handler → Handler
path_validation_middleware next headers r =
    if not (r.path ==s codes "/mcp") && not (r.path ==s codes "/mcp/")
    then http_error headers (codes "Not Found: This server only handles requests to /mcp") 404
    else next headers r

-- The methods that chainMiddleware lets through without credentials.
unfoldable pub unauthenticated_methods : Config → List Str
unauthenticated_methods config =
    (if config.allow_unauthenticated_ping then codes "ping" ∷ [] else [])
    ++ (if config.allow_unauthenticated_tools_list then codes "tools/list" ∷ [] else [])
    ++ (if config.allow_unauthenticated_initialize then codes "initialize" ∷ [] else [])
    ++ (if config.allow_unauthenticated_notifications_initialize
        then codes "notifications/initialized" ∷ []
        else [])

-- chainMiddleware, of a server whose embedding provider is the given one
unfoldable pub chain_middleware :
    Decoders → Config → Option EmbeddingConfig → List Str → Handler → Handler
chain_middleware decoders config embedding allowed_origins next = path_validation_middleware (
    cors_middleware allowed_origins config.auth_header_name
      (config.http_tools_header_name ∷ config.http_tool_categories_header_name ∷ [])
      (embedding_config_middleware embedding (
        tool_selection_middleware config.http_tools_header_name
          config.http_tool_categories_header_name
          (auth_middleware decoders next config.auth_header_name
            (unauthenticated_methods config)))))
