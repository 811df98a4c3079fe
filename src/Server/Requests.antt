-- ===== src/Server/Requests.antt =====
-- server/server.go and mcpsdk/{server,hooks}.go: the tools that are registered on the server, the
-- verification of the database on the first request in HTTP mode, and the filter on the tools that a
-- request sees. The lock is not modelled: the verifications are in the order in which they hold it.
-- The outcome of each verification is an input.
pub mod Verified
pub mod Visible
use neo4j_mcp_canary.Prelude.{
  ℕ, suc, Bool, true, false, ◌&&◌, ◌||◌, List, [], ◌∷◌, Option, none, some, if◌then◌else◌,
}
use neo4j_mcp_canary.Text.{Str, codes, ◌==s◌, contains}
use neo4j_mcp_canary.Auth.{Context}
use neo4j_mcp_canary.Server.Tools.{
  ToolDefinition, ToolConfig, Capabilities, keep, is_nil, names_of, get_all_tools_defs,
  get_enabled_tools,
}

-- Server.AddTool: the definition replaces the one of its name
unfoldable pub add_tool : ToolDefinition → List ToolDefinition → List ToolDefinition
add_tool d [] = d ∷ []
add_tool d (t ∷ ts) = let rest = add_tool d ts in if t.name ==s d.name then d ∷ ts else t ∷ rest

-- Server.AddTools
unfoldable pub add_tools : List ToolDefinition → List ToolDefinition → List ToolDefinition
unfolding add_tool
add_tools [] tools = tools
add_tools (d ∷ ds) tools = add_tools ds (add_tool d tools)

-- The state of a Neo4jMCPServer, and how often it has announced its connection.
pub record ServerState : Type 0 where
  pub capabilities : Capabilities
  pub connection_verified : Bool
  pub tools : List ToolDefinition
  pub connection_initialized_events : ℕ

abbrev pub no_capabilities : Capabilities
no_capabilities = record {
  gds_installed = false;
  search_version_supported = false;
  cypher25_supported = false;
}

-- What the result of a filter means for one name, and for a list of tools.
abbrev pub is_allowed : Option (List Str) → Str → Bool
is_allowed none name = true
is_allowed (some allowed) name = contains allowed name

abbrev pub narrowed : Option (List Str) → List ToolDefinition → List ToolDefinition
narrowed none tools = tools
narrowed (some allowed) tools = keep (λ t. contains allowed t.name) tools

module _ (builtin : List ToolDefinition) (config : ToolConfig) where
  -- NewNeo4jMCPServer, and Start in HTTP mode, when validateCustomTools has found nothing: otherwise
  -- Start returns its error and the server never listens
  unfoldable pub start : ServerState
  unfolding add_tools
  start = record {
    capabilities = no_capabilities;
    connection_verified = false;
    tools = add_tools (get_enabled_tools builtin config no_capabilities) [];
    connection_initialized_events = 0;
  }

  -- reregisterOptionalTools
  abbrev pub reregister_optional_tools : Capabilities → List ToolDefinition → List ToolDefinition
  reregister_optional_tools caps tools = add_tools (get_enabled_tools builtin config caps) tools

  -- verifyOnFirstRequest after a successful verification
  abbrev pub after_verification : ServerState → Capabilities → ServerState
  after_verification s caps = record {
    capabilities = caps;
    connection_verified = true;
    tools =
        if caps.gds_installed || caps.search_version_supported || caps.cypher25_supported
        then reregister_optional_tools caps s.tools
        else s.tools;
    connection_initialized_events = suc s.connection_initialized_events;
  }

  abbrev pub on_outcome : ServerState → Option Capabilities → ServerState
  on_outcome s none = s
  on_outcome s (some caps) = after_verification s caps

  -- verifyOnFirstRequest, with the outcome of the verification, none for an error
  unfoldable pub verify_on_first_request : ServerState → Option Capabilities → ServerState
  verify_on_first_request s outcome = if s.connection_verified then s else on_outcome s outcome

  -- The handshakes of a server's life, one after another.
  unfoldable pub handshakes : ServerState → List (Option Capabilities) → ServerState
  unfolding verify_on_first_request
  handshakes s [] = s
  handshakes s (o ∷ os) = handshakes (verify_on_first_request s o) os

  -- The definitions that a selection picks, as toolAccessFilter does.
  abbrev pub allowed_names : List Str → List Str → List Str
  allowed_names names categories = names_of (
      keep (λ d. contains names d.name || contains categories d.category)
        (get_all_tools_defs builtin config))

  abbrev pub filter_of_selection : Option (List Str × List Str) → Option (List Str)
  filter_of_selection none = none
  filter_of_selection (some (names, categories)) =
      if is_nil names && is_nil categories then none else some (allowed_names names categories)

  -- toolAccessFilter: none when the request is not restricted
  unfoldable pub tool_access_filter : Context → Option (List Str)
  tool_access_filter ctx = filter_of_selection ctx.tool_selection

  -- toolAccessMiddleware for tools/call: whether the call is passed on
  unfoldable pub passes_call : Context → Str → Bool
  unfolding tool_access_filter
  passes_call ctx name = is_allowed (tool_access_filter ctx) name

  -- toolAccessMiddleware for tools/list, when all registered tools are listed behind it
  unfoldable pub list_tools : Context → ServerState → List ToolDefinition
  unfolding tool_access_filter
  list_tools ctx s = narrowed (tool_access_filter ctx) s.tools
