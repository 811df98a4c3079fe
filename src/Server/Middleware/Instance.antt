-- ===== src/Server/Middleware/Instance.antt =====
-- server/middleware.go: the chain of one route of the multi-instance mode, which authenticates the
-- client the way its instance is configured. Comparing keys in constant time is not modelled: only
-- whether they are equal is.
pub mod Access
pub mod Exact
pub mod Route
pub mod Rejected
pub mod Valid
use neo4j_mcp_canary.Prelude.{
  Bool, false, ◌||◌, not, List, [], ◌∷◌, ◌++◌, Option, none, some, if◌then◌else◌,
}
use neo4j_mcp_canary.Text.{Str, codes, ◌==s◌, trim_space}
use neo4j_mcp_canary.Text.Search.{cut_prefix}
use neo4j_mcp_canary.Auth.{
  EmbeddingConfig, Context, with_basic_auth, with_bearer_token, with_instance_selection,
  with_embedding_config,
}
use neo4j_mcp_canary.Config.Instances.{InstanceAuth, NeoInstance}
use neo4j_mcp_canary.Server.Http.{
  Headers, header_get, header_set, Request, Decoders, basic_auth, Answer, Handler, http_error,
}
use neo4j_mcp_canary.Server.Middleware.{Config, basic_realm}
use neo4j_mcp_canary.Server.Middleware.Chain.{tool_selection_middleware, cors_middleware}

-- BearerVerifyFunc: the error, if it is one
abbrev pub BearerVerifyFunc : Type 0
BearerVerifyFunc = InstanceAuth → Str → Option Str

-- matchesAnyAPIKey
unfoldable pub matches_any_api_key : Str → List Str → Bool
matches_any_api_key presented [] = false
matches_any_api_key presented (k ∷ ks) = presented ==s k || matches_any_api_key presented ks

-- protectedResourceMetadataPath
unfoldable pub protected_resource_metadata_path : Str → Str
protected_resource_metadata_path instance_name =
    codes "/.well-known/oauth-protected-resource/" ++ (instance_name ++ codes "/mcp")

-- scheme
unfoldable pub scheme : Config → Str
scheme config = if config.http_tls_enabled then codes "https" else codes "http"

-- resourceURL
unfoldable pub resource_url : Str → Request → Str → Str
resource_url scheme r instance_name =
    scheme ++ (codes "://" ++ (r.host ++ (b'/' ∷ (instance_name ++ codes "/mcp"))))

-- metadataURL
unfoldable pub metadata_url : Str → Request → Str → Str
unfolding protected_resource_metadata_path
metadata_url scheme r instance_name =
    scheme ++ (codes "://" ++ (r.host ++ protected_resource_metadata_path instance_name))

-- The context that every branch starts from.
unfoldable pub instance_context : Str → Option EmbeddingConfig → Context → Context
instance_context name none ctx = with_instance_selection ctx name
instance_context name (some cfg) ctx = with_embedding_config (with_instance_selection ctx name) cfg

-- fmt's %q, of a text without quotes, backslashes and control characters
abbrev pub quoted_text : Str → Str
quoted_text s = b'"' ∷ (s ++ (b'"' ∷ []))

module _ (decoders : Decoders) (next : Handler) where
  abbrev pub by_api_key : Str → InstanceAuth → Context → Headers → Request → Answer
  by_api_key key_header auth ctx headers r =
      let presented = header_get r.headers key_header in
      if presented ==s [] || not (matches_any_api_key presented auth.api_keys)
      then http_error headers (codes "Unauthorized: invalid or missing API key") 401
      else next headers (record r { context = ctx })

  abbrev pub by_passthrough : Context → Headers → Request → Option (Str × Str) → Answer
  by_passthrough ctx headers r none =
      http_error (header_set headers (codes "WWW-Authenticate") basic_realm)
        (codes "Unauthorized: Basic authentication required") 401
  by_passthrough ctx headers r (some (user, pass)) =
      if user ==s [] || pass ==s []
      then http_error (header_set headers (codes "WWW-Authenticate") basic_realm)
          (codes "Unauthorized: Basic authentication required") 401
      else next headers (record r { context = with_basic_auth ctx user pass })

  -- What a verification says of a token.
  abbrev pub verified : Str → Context → Headers → Request → Str → Option Str → Answer
  verified meta ctx headers r token (some e) =
      http_error
        (header_set headers (codes "WWW-Authenticate")
          (codes "Bearer error=\"invalid_token\", resource_metadata=" ++ quoted_text meta))
        (codes "Unauthorized: invalid bearer token") 401
  verified meta ctx headers r token none =
      next headers (record r { context = with_bearer_token ctx token })

  abbrev pub verify_token :
      Option BearerVerifyFunc → InstanceAuth → Str → Context → Headers → Request → Str → Answer
  verify_token none auth meta ctx headers r token =
      http_error headers (codes "Bearer verification is not yet configured for this instance") 501
  verify_token (some verify) auth meta ctx headers r token =
      verified meta ctx headers r token (verify auth token)

  abbrev pub by_bearer :
      Option BearerVerifyFunc
      → InstanceAuth
      → Str
      → Context
      → Headers
      → Request
      → Str × Bool
      → Answer
  by_bearer verify auth meta ctx headers r (rest, found) =
      if not found || trim_space rest ==s []
      then http_error
          (header_set headers (codes "WWW-Authenticate")
            (codes "Bearer resource_metadata=" ++ quoted_text meta))
          (codes "Unauthorized: Bearer token required") 401
      else verify_token verify auth meta ctx headers r (trim_space rest)

  -- The switch on the type of an instance's authentication.
  abbrev pub by_type :
      Str
      → Option BearerVerifyFunc
      → InstanceAuth
      → Str
      → Str
      → Context
      → Headers
      → Request
      → Answer
  by_type auth_type verify auth key_header meta ctx headers r =
      if auth_type ==s codes "basic"
      then by_api_key key_header auth ctx headers r
      else if auth_type ==s codes "basic_passthrough"
      then by_passthrough ctx headers r (basic_auth decoders r)
      else if auth_type ==s codes "bearer"
      then by_bearer verify auth meta ctx headers r
          (cut_prefix (header_get r.headers (codes "Authorization")) (codes "Bearer "))
      else http_error headers (codes "Internal Server Error: unknown instance auth type") 500

  -- instanceAuthMiddleware
  unfoldable pub instance_auth_middleware :
      Str → InstanceAuth → Option EmbeddingConfig → Str → Str → Option BearerVerifyFunc → Handler
  unfolding metadata_url
  instance_auth_middleware name auth embedding key_header scheme verify headers r =
      by_type auth.auth_type verify auth key_header (metadata_url scheme r name)
        (instance_context name embedding r.context) headers r

-- chainMiddlewareForInstance
unfoldable pub chain_middleware_for_instance :
    Decoders → Config → Option BearerVerifyFunc → NeoInstance → List Str → Handler → Handler
unfolding scheme
chain_middleware_for_instance decoders config verify inst allowed_origins next =
    cors_middleware allowed_origins config.auth_header_name
      (config.http_tools_header_name ∷ config.http_tool_categories_header_name ∷ [])
      (tool_selection_middleware config.http_tools_header_name
        config.http_tool_categories_header_name
        (instance_auth_middleware decoders next inst.name inst.auth inst.embedding
          config.http_api_key_header_name (scheme config) verify))
