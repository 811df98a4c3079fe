-- ===== src/Examples/Server.antt =====
-- The theorems on the HTTP middleware, the registration of tools and the readiness of the database, at
-- concrete inputs.
use neo4j_mcp_canary.Prelude.{
  ℕ, true, false, ◌&&◌, not, List, [], ◌∷◌, ◌⊎◌, inl, inr, Option, none, some, ◌≡◌, ◌≢◌, ◌↔◌, refl,
  pos, if◌then◌else◌, Memᴰ,
}
use neo4j_mcp_canary.Text.{Str, codes, ◌==s◌, contains, trim_space}
use neo4j_mcp_canary.Auth.{background}
use neo4j_mcp_canary.Graphutil.Value.{str, arr, nil, cons}
use neo4j_mcp_canary.Config.CustomTools.{CustomTool, Floats, check_tools, validate_custom_tool}
use neo4j_mcp_canary.Config.CustomTools as Config
use neo4j_mcp_canary.Config.CustomTools.Valid.{Distinct}
use neo4j_mcp_canary.Config.Instances.{NeoInstance, validate_instances}
use neo4j_mcp_canary.Config.Scan.{matches_tool_name, matches_category, matches_param_name}
use neo4j_mcp_canary.Server.Http.{Request, Decoders, header_get, reach}
use neo4j_mcp_canary.Server.Middleware.{parse_comma_list}
use neo4j_mcp_canary.Server.Middleware as Middleware
use neo4j_mcp_canary.Server.Middleware.Chain.{chain_middleware, unauthenticated_methods}
use neo4j_mcp_canary.Server.Middleware.Served.{ClientAccess}
use neo4j_mcp_canary.Server.Middleware.Exact.{prepared, chain_middleware_lem}
use neo4j_mcp_canary.Server.Middleware.Instance.{
  chain_middleware_for_instance, instance_auth_middleware,
}
use neo4j_mcp_canary.Server.Middleware.Instance.Access.{Served, Allowed}
use neo4j_mcp_canary.Server.Middleware.Instance.Route.{
  selecting, IsPreflight, chain_middleware_for_instance_lem,
}
use neo4j_mcp_canary.Server.Middleware.Instance.Rejected.{
  IsUnverifiable, chain_middleware_for_instance_rejected, Denied, InstanceReason,
}
use neo4j_mcp_canary.Server.Middleware.Instance.Valid.{validated_route}
use neo4j_mcp_canary.Server.Tools.{
  ToolConfig, Capabilities, keep, names_of, get_all_tools_defs, get_enabled_tools,
  custom_definition, validate_custom_tools, first_collision,
}
use neo4j_mcp_canary.Server.Tools.Builtin.{builtin_tools_defs}
use neo4j_mcp_canary.Server.Tools.Check.{is_selected}
use neo4j_mcp_canary.Server.Tools.Enabled.{is_registered, get_enabled_tools_lem}
use neo4j_mcp_canary.Server.Tools.Names.{validate_custom_tools_lem}
use neo4j_mcp_canary.Server.Tools.Distinct.{all_tools-Distinct}
use neo4j_mcp_canary.Server.Requests.{start, handshakes, list_tools, passes_call}
use neo4j_mcp_canary.Server.Requests.Verified.{handshakes_verified}
use neo4j_mcp_canary.Server.Requests.Visible.{list_tools-passes_call}
use neo4j_mcp_canary.Readiness.{ReadinessService, verify, check_version_support}
use neo4j_mcp_canary.Database.Version.{meets_minimum_version}
use neo4j_mcp_canary.Readiness.Floors.{verify_floors}

-- A client whose bodies are the bare names of methods.
abbrev plain_decoders : Decoders
plain_decoders = record {
  decode_base64 = λ s. some s;
  json_method = λ s. if s ==s [] then inl [] else inr s;
}

plain_decoders_reject : (m : Str) → plain_decoders.json_method [] ≢ inr m
unfolding ◌==s◌
plain_decoders_reject m h = absurd (cc)

abbrev small_config : Middleware.Config
small_config = record {
  allow_unauthenticated_ping = true;
  allow_unauthenticated_tools_list = false;
  allow_unauthenticated_initialize = false;
  allow_unauthenticated_notifications_initialize = false;
  auth_header_name = codes "Authorization";
  http_tools_header_name = codes "X-Tools";
  http_tool_categories_header_name = codes "X-Categories";
  http_api_key_header_name = codes "X-Key";
  http_tls_enabled = true;
}

abbrev ping : Request
ping = record {
  method = codes "POST";
  path = codes "/mcp";
  host = codes "localhost";
  headers = (codes "X-Key", codes "k1") ∷ [];
  body = record { content = codes "ping"; failure = none };
  content_length = pos 4;
  context = background;
}

chain_middleware_lem_example :
    Served
      (chain_middleware plain_decoders small_config none [] reach [] ping)
      (prepared small_config none ping)
    ↔ (((ping.path ≡ codes "/mcp") ⊎ (ping.path ≡ codes "/mcp/"))
        × (¬ IsPreflight [] ping)
        × ClientAccess plain_decoders
            (unauthenticated_methods small_config)
            (prepared small_config none ping)
            (prepared small_config none ping))
chain_middleware_lem_example =
    chain_middleware_lem plain_decoders plain_decoders_reject small_config none ping
      (prepared small_config none ping) [] []

abbrev keyed_instance : NeoInstance
keyed_instance = record {
  name = codes "a";
  uri = codes "bolt://a";
  database = codes "neo4j";
  auth = record {
    auth_type = codes "basic";
    username = codes "u";
    password = codes "p";
    api_keys = codes "k1" ∷ [];
    issuer = [];
    jwks_uri = [];
    audience = [];
  };
  embedding = none;
}

chain_middleware_for_instance_lem_example :
    Served
      (chain_middleware_for_instance plain_decoders small_config none keyed_instance [] reach []
        ping)
      ping
    ↔ ((¬ IsPreflight [] ping)
        × Allowed plain_decoders
            (codes "a")
            keyed_instance.auth
            none
            (codes "X-Key")
            none
            (selecting small_config ping)
            ping)
chain_middleware_for_instance_lem_example =
    chain_middleware_for_instance_lem plain_decoders small_config none keyed_instance ping ping []
      []

-- A request without a key.
abbrev keyless : Request
keyless = record ping { headers = [] }

abbrev rejection : Str
rejection = codes "Unauthorized: invalid or missing API key"

abbrev unauthorized : ℕ
unauthorized = 401

chain_middleware_for_instance_rejected_example :
    ((unauthorized ≡ 204) × IsPreflight [] keyless)
    ⊎ ((¬ IsPreflight [] keyless)
        × InstanceReason plain_decoders small_config none keyed_instance keyless unauthorized
            rejection)
unfolding chain_middleware_for_instance instance_auth_middleware header_get ◌==s◌
chain_middleware_for_instance_rejected_example =
    chain_middleware_for_instance_rejected plain_decoders small_config none keyed_instance keyless
      401 rejection [] [] refl

validated_route_example :
    ((unauthorized ≡ 204) × IsPreflight [] keyless)
    ⊎ ((¬ IsPreflight [] keyless)
        × (((unauthorized ≡ 401)
              × Denied plain_decoders keyed_instance.auth small_config.http_api_key_header_name none
                  (selecting small_config keyless))
            ⊎ ((unauthorized ≡ 501) × IsUnverifiable keyed_instance.auth none [])))
unfolding chain_middleware_for_instance instance_auth_middleware header_get ◌==s◌ validate_instances
    contains trim_space
validated_route_example =
    validated_route plain_decoders small_config none (keyed_instance ∷ []) keyed_instance keyless
      401 rejection [] [] refl (Memᴰ.head refl) refl

abbrev custom_tool : CustomTool
custom_tool = record {
  name = codes "find-it";
  description = codes "Finds it";
  category = codes "crm";
  access = codes "read";
  statement = codes "RETURN 1";
  params = [];
}

abbrev tool_config : ToolConfig
tool_config = record {
  enabled_tools = [];
  enabled_tool_categories = codes "crm,graph";
  read_only = true;
  custom_tools = custom_tool ∷ [];
}

abbrev modern : Capabilities
modern = record {
  gds_installed = false;
  search_version_supported = false;
  cypher25_supported = true;
}

get_enabled_tools_lem_example :
    get_enabled_tools builtin_tools_defs tool_config modern
    ≡ keep (is_registered tool_config modern) (get_all_tools_defs builtin_tools_defs tool_config)
get_enabled_tools_lem_example = get_enabled_tools_lem builtin_tools_defs tool_config modern

validate_custom_tools_lem_example :
    (contains (names_of builtin_tools_defs) (codes "find-it") ≡ false)
    × (is_registered tool_config modern (custom_definition custom_tool) ≡ (
        is_selected
          (parse_comma_list tool_config.enabled_tools)
          (parse_comma_list tool_config.enabled_tool_categories)
          (custom_definition custom_tool)
        && not (true && not (codes "read" ==s codes "read"))))
unfolding validate_custom_tools first_collision contains ◌==s◌
validate_custom_tools_lem_example =
    validate_custom_tools_lem builtin_tools_defs tool_config modern custom_tool refl
      (Memᴰ.head refl)

-- Conversions for a program without floating-point numbers.
abbrev no_floats : Floats
no_floats = record { of_int = λ n. 0; to_int = λ f. pos 0; equal = λ f g. true }

all_tools-Distinct_example : Distinct (names_of (get_all_tools_defs builtin_tools_defs tool_config))
unfolding validate_custom_tools Config.validate_custom_tools first_collision check_tools
    validate_custom_tool contains ◌==s◌ trim_space matches_tool_name matches_category
    matches_param_name
all_tools-Distinct_example = all_tools-Distinct no_floats tool_config refl refl

abbrev outcomes : List (Option Capabilities)
outcomes = none ∷ some modern ∷ none ∷ []

handshakes_verified_example :
    let s =
      handshakes builtin_tools_defs tool_config (start builtin_tools_defs tool_config) outcomes in
    (s.connection_verified ≡ true)
    × (s.capabilities ≡ modern)
    × (s.connection_initialized_events ≡ 1)
    × ((n : Str)
        → contains (names_of s.tools) n
          ≡ contains (names_of (get_enabled_tools builtin_tools_defs tool_config modern)) n)
handshakes_verified_example =
    handshakes_verified builtin_tools_defs tool_config outcomes modern refl

list_tools-passes_call_example :
    contains
      (names_of (
        list_tools builtin_tools_defs tool_config background
          (start builtin_tools_defs tool_config)))
      (codes "find-it")
    ≡ (contains (names_of (start builtin_tools_defs tool_config).tools) (codes "find-it")
        && passes_call builtin_tools_defs tool_config background (codes "find-it"))
list_tools-passes_call_example =
    list_tools-passes_call builtin_tools_defs tool_config background
      (start builtin_tools_defs tool_config) (codes "find-it")

-- A database of version 2026.09.
abbrev new_database : ReadinessService
new_database = record {
  verify_connectivity = none;
  execute_read_query = λ q. inr (
      ((codes "name", str (codes "Neo4j Kernel"))
        ∷ (codes "versions", arr (cons (str (codes "2026.09")) nil))
        ∷ [])
      ∷ []);
}

abbrev found_capabilities : Capabilities
found_capabilities = record {
  gds_installed = false;
  search_version_supported = true;
  cypher25_supported = true;
}

verify_floors_example : found_capabilities.cypher25_supported ≡ true
unfolding verify check_version_support ◌==s◌ meets_minimum_version
verify_floors_example = verify_floors new_database (codes "bolt://a") found_capabilities refl refl
