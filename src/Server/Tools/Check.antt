-- ===== src/Server/Tools/Check.antt =====
-- server/tools_register.go: CheckToolConfig, which reports what is wrong with the selection of tools
-- without starting the server. An issue carries the values that its message is formatted from.
use neo4j_mcp_canary.Prelude.{
  Bool, false, ◌&&◌, ◌||◌, not, List, [], ◌∷◌, ◌++◌, Option, none, some, if◌then◌else◌,
}
use neo4j_mcp_canary.Text.{Str, codes, ◌==s◌, contains}
use neo4j_mcp_canary.Config.CustomTools.{CustomTool}
use neo4j_mcp_canary.Server.Middleware.{parse_comma_list}
use neo4j_mcp_canary.Server.Tools.{
  ToolDefinition, ToolConfig, Capabilities, CustomToolError, validate_custom_tools,
  get_all_tools_defs, is_nil, category_gds, category_search, names_of, category_graph,
  category_traversal, category_patterns,
}

-- ToolConfigIssue
pub data ToolConfigIssue : Type 0 where
  bad_custom_tool : CustomToolError → ToolConfigIssue
  unknown_tool : Str → ToolConfigIssue
  unknown_category : Str → ToolConfigIssue
  removed_by_read_only : Str → ToolConfigIssue
  not_registered : Str → Str → ToolConfigIssue
  no_tools : ToolConfigIssue

-- unavailableReason: "" when the category is available
unfoldable pub unavailable_reason : Str → Capabilities → Str
unavailable_reason c caps =
    if c ==s category_gds
    then (if not caps.gds_installed
        then codes "the Graph Data Science plugin is not installed on the connected server."
        else [])
    else if c ==s category_search
    then (if not caps.search_version_supported
        then codes
            "the connected Neo4j version is too old for the search category (needs 2026.09 or Aura 5.27)."
        else [])
    else if c ==s category_graph || c ==s category_traversal || c ==s category_patterns
    then (if not caps.cypher25_supported
        then codes
            "the connected Neo4j version does not support Cypher 25, which this category requires."
        else [])
    else []

-- The test that CheckToolConfig makes on the selection.
abbrev pub is_selected : List Str → List Str → ToolDefinition → Bool
is_selected names categories d =
    (is_nil names && is_nil categories) || contains names d.name || contains categories d.category

-- The tool modifies data and the server is read-only.
abbrev pub is_removed : ToolConfig → ToolDefinition → Bool
is_removed config d = config.read_only && not d.readonly

-- customToolNamed, as far as its second result
unfoldable pub has_custom_tool_named : List CustomTool → Str → Bool
has_custom_tool_named [] name = false
has_custom_tool_named (t ∷ ts) name = t.name ==s name || has_custom_tool_named ts name

abbrev pub issues_of_validation : Option CustomToolError → List ToolConfigIssue
issues_of_validation none = []
issues_of_validation (some e) = bad_custom_tool e ∷ []

abbrev pub unknown_tools : List Str → List Str → List ToolConfigIssue
unknown_tools known [] = []
unknown_tools known (n ∷ ns) =
    let rest = unknown_tools known ns in if contains known n then rest else unknown_tool n ∷ rest

abbrev pub unknown_categories : List Str → List Str → List ToolConfigIssue
unknown_categories known [] = []
unknown_categories known (c ∷ cs) =
    let rest = unknown_categories known cs in
    if contains known c then rest else unknown_category c ∷ rest

abbrev pub categories_of : List ToolDefinition → List Str
categories_of [] = []
categories_of (d ∷ ds) = d.category ∷ categories_of ds

abbrev pub availability_issue : ToolDefinition → Option Capabilities → List ToolConfigIssue
availability_issue d none = []
availability_issue d (some caps) =
    let reason = unavailable_reason d.category caps in
    if reason ==s [] then [] else not_registered d.name reason ∷ []

-- What the second loop reports of one definition.
unfoldable pub issues_of :
    ToolConfig → Option Capabilities → List Str → List Str → ToolDefinition → List ToolConfigIssue
unfolding has_custom_tool_named unavailable_reason
issues_of config caps names categories d =
    if not (is_selected names categories d)
    then []
    else if is_removed config d
    then (if has_custom_tool_named config.custom_tools d.name || contains names d.name
        then removed_by_read_only d.name ∷ []
        else [])
    else availability_issue d caps

abbrev pub all_issues_of :
    ToolConfig
    → Option Capabilities
    → List Str
    → List Str
    → List ToolDefinition
    → List ToolConfigIssue
all_issues_of config caps names categories [] = []
all_issues_of config caps names categories (d ∷ ds) =
    issues_of config caps names categories d ++ all_issues_of config caps names categories ds

-- Whether the last loop counts a tool.
abbrev pub any_registered : ToolConfig → List Str → List Str → List ToolDefinition → Bool
any_registered config names categories [] = false
any_registered config names categories (d ∷ ds) =
    (is_selected names categories d && not (is_removed config d))
    || any_registered config names categories ds

-- CheckToolConfig
unfoldable pub check_tool_config :
    List ToolDefinition → ToolConfig → Option Capabilities → List ToolConfigIssue
unfolding issues_of
check_tool_config builtin config caps =
    let names = parse_comma_list config.enabled_tools in
    let categories = parse_comma_list config.enabled_tool_categories in
    let defs = get_all_tools_defs builtin config in
    issues_of_validation (validate_custom_tools builtin config)
    ++ unknown_tools (names_of defs) names
    ++ unknown_categories (categories_of defs) categories
    ++ all_issues_of config caps names categories defs
    ++ (if any_registered config names categories defs then [] else no_tools ∷ [])
