-- ===== src/Server/Middleware.antt =====
-- server/middleware.go: the middleware of the single-instance chain, and the chain itself. The handler
-- behind it is a parameter, as are the packages that decode base64 and JSON. What the logging
-- middleware writes to the log is left out.
pub mod Chain
pub mod Access
pub mod Served
pub mod Exact
pub mod Instance
use neo4j_mcp_canary.Prelude.{
  ℕ, Bool, true, false, ◌&&◌, ◌||◌, not, List, [], ◌∷◌, ◌++◌, ◌⊎◌, inl, inr, Option, none, some,
  if◌then◌else◌, ltb_int, leb, ℤ, pos,
}
use neo4j_mcp_canary.Text.{Str, codes, ◌==s◌, contains, join, trim_space}
use neo4j_mcp_canary.Text.Search.{equal_fold, cut_prefix, split, has_substring}
use neo4j_mcp_canary.Auth.{
  EmbeddingConfig, Context, with_basic_auth, with_bearer_token, with_tool_selection,
  with_embedding_config,
}
use neo4j_mcp_canary.Server.Http.{
  Headers, header_get, header_add, header_set, Body, bytes_reader, max_bytes_reader, read_all,
  Request, Decoders, basic_auth, Event, unauthenticated_json_rpc, End, replied, reached, Answer,
  Handler, http_error,
}

-- The fields of config.Config that the middleware reads.
pub record Config : Type 0 where
  pub allow_unauthenticated_ping : Bool
  pub allow_unauthenticated_tools_list : Bool
  pub allow_unauthenticated_initialize : Bool
  pub allow_unauthenticated_notifications_initialize : Bool
  pub auth_header_name : Str
  pub http_tools_header_name : Str
  pub http_tool_categories_header_name : Str
  pub http_api_key_header_name : Str
  pub http_tls_enabled : Bool

abbrev pub max_unauthenticated_body_bytes : ℕ
max_unauthenticated_body_bytes = 4096

-- The non-empty ones of some parts, trimmed.
unfoldable pub trimmed_parts : List Str → List Str
trimmed_parts [] = []
trimmed_parts (p ∷ ps) =
    let rest = trimmed_parts ps in if trim_space p ==s [] then rest else trim_space p ∷ rest

-- parseCommaList
unfoldable pub parse_comma_list : Str → List Str
unfolding trimmed_parts
parse_comma_list s = if s ==s [] then [] else trimmed_parts (split s b',')

-- An error of `isUnauthenticatedMethodRequest`.
pub data ProbeError : Type 0 where
  body_too_large : ProbeError
  read_failed : Str → ProbeError
  not_json : Str → ProbeError

abbrev pub with_body : Request → Body → Request
with_body r body = record r { body = body }

abbrev pub is_method : Str → Str ⊎ Str → ProbeError ⊎ Bool
is_method method (inl e) = inl (not_json e)
is_method method (inr m) = inr (m ==s method)

-- What `isUnauthenticatedMethodRequest` does with the body once it is read.
abbrev pub probe_read : Decoders → Request → Str → Str ⊎ Str → (ProbeError ⊎ Bool) × Request
probe_read decoders r method (inl e) = (
  inl (if has_substring e (codes "request body too large") then body_too_large else read_failed e),
  with_body r (bytes_reader []),
)
probe_read decoders r method (inr buf) =
    (is_method method (decoders.json_method buf), with_body r (bytes_reader buf))

-- isUnauthenticatedMethodRequest, with the request as it leaves it
unfoldable pub is_unauthenticated_method_request :
    Decoders → Request → Str → (ProbeError ⊎ Bool) × Request
is_unauthenticated_method_request decoders r method =
    if not (r.method ==s codes "POST")
    then (inr false, r)
    else if ltb_int (pos max_unauthenticated_body_bytes) r.content_length
    then (inl body_too_large, r)
    else probe_read decoders r method (read_all r.body)

-- How the loop over the methods that need no credentials ends.
pub data Probe : Type 0 where
  matched : Str → Request → Probe
  too_large : Probe
  unmatched : Probe

abbrev pub after_probe : Str → (Request → Probe) → (ProbeError ⊎ Bool) × Request → Probe
after_probe method continue (inl body_too_large, r) = too_large
after_probe method continue (inl (read_failed e), r) = continue r
after_probe method continue (inl (not_json e), r) = continue r
after_probe method continue (inr true, r) = matched method r
after_probe method continue (inr false, r) = continue r

-- The loop over the methods that need no credentials.
unfoldable pub probe_methods : Decoders → List Str → Request → Probe
probe_methods decoders [] r = unmatched
probe_methods decoders (method ∷ methods) r =
    after_probe method (probe_methods decoders methods)
      (is_unauthenticated_method_request decoders r method)

abbrev pub basic_realm : Str
basic_realm = codes "Basic realm=\"Neo4j MCP Server\""

abbrev pub bearer_realm : Str
bearer_realm = codes "Bearer realm=\"Neo4j MCP Server\""

-- A configured header other than Authorization is copied into it, when it is there.
unfoldable pub settle_header : Str → Request → Request
settle_header header_name r =
    if not (equal_fold header_name (codes "Authorization"))
      && not (header_get r.headers header_name ==s [])
    then record r {
      headers = header_set r.headers (codes "Authorization") (header_get r.headers header_name);
    }
    else r

module _ (decoders : Decoders) (next : Handler) where
  -- The 401 for a request without credentials.
  abbrev pub credentials_required : Headers → Answer
  credentials_required headers =
      http_error
        (header_add (header_add headers (codes "WWW-Authenticate") basic_realm)
          (codes "WWW-Authenticate") bearer_realm)
        (codes "Unauthorized: Basic or Bearer authentication required") 401

  abbrev pub after_probes : Headers → Probe → Answer
  after_probes headers (matched method r) =
      let answer = next headers r in
      record answer { events = unauthenticated_json_rpc method ∷ answer.events }
  after_probes headers too_large = http_error headers (codes "request body too large") 413
  after_probes headers unmatched = credentials_required headers

  -- A request without Basic credentials.
  abbrev pub without_credentials : List Str → Headers → Request → Answer
  without_credentials [] headers r = credentials_required headers
  without_credentials (method ∷ methods) headers r = after_probes headers (
      probe_methods decoders (method ∷ methods)
        (with_body r (max_bytes_reader r.body max_unauthenticated_body_bytes)))

  abbrev pub by_basic_auth : List Str → Headers → Request → Option (Str × Str) → Answer
  by_basic_auth methods headers r none = without_credentials methods headers r
  by_basic_auth methods headers r (some (user, pass)) =
      if user ==s [] || pass ==s []
      then http_error (header_set headers (codes "WWW-Authenticate") basic_realm)
          (codes "Unauthorized: Username and password cannot be empty") 401
      else next headers (record r { context = with_basic_auth r.context user pass })

  abbrev pub by_token : Headers → Request → Str → Answer
  by_token headers r token =
      if token ==s []
      then http_error (header_set headers (codes "WWW-Authenticate") bearer_realm)
          (codes "Unauthorized: Bearer token is empty") 401
      else next headers (record r { context = with_bearer_token r.context token })

  -- The handling once the header of the credentials is settled.
  abbrev pub authenticate : List Str → Headers → Request → Str × Bool → Answer
  authenticate methods headers r (token, true) = by_token headers r (trim_space token)
  authenticate methods headers r (rest, false) =
      by_basic_auth methods headers r (basic_auth decoders r)

  -- authMiddleware
  unfoldable pub auth_middleware : Str → List Str → Handler
  unfolding settle_header
  auth_middleware header_name methods headers r =
      let r' = settle_header header_name r in
      authenticate methods headers r'
        (cut_prefix (header_get r'.headers (codes "Authorization")) (codes "Bearer "))
