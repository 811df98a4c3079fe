-- ===== src/Server/Tools.antt =====
-- server/tools_register.go and tools/category.go: which tools the server offers. A tool is what the
-- pipeline reads of it, its name; what it does when it is called is modelled in the modules of the
-- tools. The configuration is there, as buildToolDependencies takes for granted.
pub mod Builtin
pub mod Check
pub mod Enabled
pub mod Names
pub mod Distinct
use neo4j_mcp_canary.Prelude.{
  Bool, true, false, ◌&&◌, ◌||◌, not, List, [], ◌∷◌, ◌++◌, map, Option, none, some, if◌then◌else◌,
}
use neo4j_mcp_canary.Text.{Str, codes, ◌==s◌, contains}
use neo4j_mcp_canary.Config.CustomTools.{CustomTool, custom_tool_access_read}
use neo4j_mcp_canary.Server.Middleware.{parse_comma_list}

abbrev pub category_cypher : Str
category_cypher = codes "cypher"

abbrev pub category_gds : Str
category_gds = codes "gds"

abbrev pub category_feedback : Str
category_feedback = codes "feedback"

abbrev pub category_search : Str
category_search = codes "search"

abbrev pub category_graph : Str
category_graph = codes "graph"

abbrev pub category_traversal : Str
category_traversal = codes "traversal"

abbrev pub category_patterns : Str
category_patterns = codes "patterns"

-- AllCategories
abbrev pub all_categories : List Str
all_categories =
    category_cypher ∷ category_gds ∷ category_feedback ∷ category_search ∷ category_graph
    ∷ category_traversal ∷ category_patterns ∷ []

-- ToolDefinition
pub record ToolDefinition : Type 0 where
  pub category : Str
  pub name : Str
  pub readonly : Bool

-- The fields of config.Config that the registration reads.
pub record ToolConfig : Type 0 where
  pub enabled_tools : Str
  pub enabled_tool_categories : Str
  pub read_only : Bool
  pub custom_tools : List CustomTool

-- What the server knows of the connected database (readiness.Result).
pub record Capabilities : Type 0 where
  pub gds_installed : Bool
  pub search_version_supported : Bool
  pub cypher25_supported : Bool

-- A loop that keeps the definitions that pass a test.
unfoldable pub keep : (ToolDefinition → Bool) → List ToolDefinition → List ToolDefinition
keep p [] = []
keep p (d ∷ ds) = let rest = keep p ds in if p d then d ∷ rest else rest

abbrev pub is_nil : List Str → Bool
is_nil [] = true
is_nil (x ∷ xs) = false

-- filterBySelection
unfoldable pub filter_by_selection : List Str → List Str → List ToolDefinition → List ToolDefinition
unfolding keep
filter_by_selection names categories defs =
    if is_nil names && is_nil categories
    then defs
    else keep (λ d. contains names d.name || contains categories d.category) defs

-- filterWriteTools
unfoldable pub filter_write_tools : List ToolDefinition → List ToolDefinition
unfolding keep
filter_write_tools defs = keep (λ d. d.readonly) defs

-- filterGDSTools
unfoldable pub filter_gds_tools : List ToolDefinition → List ToolDefinition
unfolding keep
filter_gds_tools defs = keep (λ d. not (d.category ==s category_gds)) defs

-- filterSearchTools
unfoldable pub filter_search_tools : List ToolDefinition → List ToolDefinition
unfolding keep
filter_search_tools defs = keep (λ d. not (d.category ==s category_search)) defs

-- The categories whose tools emit Cypher 25.
abbrev pub is_cypher25_category : Str → Bool
is_cypher25_category c = c ==s category_graph || c ==s category_traversal || c ==s category_patterns

-- filterCypher25Tools
unfoldable pub filter_cypher25_tools : List ToolDefinition → List ToolDefinition
unfolding keep
filter_cypher25_tools defs = keep (λ d. not (is_cypher25_category d.category)) defs

abbrev pub ToolFilter : Type 0
ToolFilter = List ToolDefinition → List ToolDefinition

-- A filter that getEnabledTools appends under a condition.
abbrev pub optional : Bool → ToolFilter → List ToolFilter
optional b f = if b then f ∷ [] else []

-- The filters of getEnabledTools, in the order in which they are applied.
unfoldable pub filters : ToolConfig → Capabilities → List ToolFilter
filters config caps =
    let names = parse_comma_list config.enabled_tools in
    let categories = parse_comma_list config.enabled_tool_categories in
    optional (not (is_nil names) || not (is_nil categories)) (filter_by_selection names categories)
    ++ (optional config.read_only filter_write_tools
        ++ (optional (not caps.gds_installed) filter_gds_tools
            ++ (optional (not caps.search_version_supported) filter_search_tools
                ++ optional (not caps.cypher25_supported) filter_cypher25_tools)))

abbrev pub apply_filters : List ToolFilter → List ToolDefinition → List ToolDefinition
apply_filters [] defs = defs
apply_filters (f ∷ fs) defs = apply_filters fs (f defs)

-- The definition of a custom tool.
abbrev pub custom_definition : CustomTool → ToolDefinition
custom_definition t = record {
  category = t.category;
  name = t.name;
  readonly = t.access ==s custom_tool_access_read;
}

-- getAllToolsDefs
unfoldable pub get_all_tools_defs : List ToolDefinition → ToolConfig → List ToolDefinition
get_all_tools_defs builtin config = builtin ++ map custom_definition config.custom_tools

-- getEnabledTools, by name
unfoldable pub get_enabled_tools :
    List ToolDefinition → ToolConfig → Capabilities → List ToolDefinition
get_enabled_tools builtin config caps =
    apply_filters (filters config caps) (get_all_tools_defs builtin config)

-- An error of validateCustomTools.
pub data CustomToolError : Type 0 where
  builtin_name : Str → CustomToolError
  builtin_category : Str → Str → CustomToolError

abbrev pub names_of : List ToolDefinition → List Str
names_of defs = map (λ d. d.name) defs

-- The loop of validateCustomTools.
unfoldable pub first_collision : List Str → List CustomTool → Option CustomToolError
first_collision builtin_names [] = none
first_collision builtin_names (t ∷ ts) =
    let rest = first_collision builtin_names ts in
    if contains builtin_names t.name
    then some (builtin_name t.name)
    else if contains all_categories t.category
    then some (builtin_category t.name t.category)
    else rest

-- validateCustomTools
unfoldable pub validate_custom_tools : List ToolDefinition → ToolConfig → Option CustomToolError
unfolding first_collision
validate_custom_tools builtin config = first_collision (names_of builtin) config.custom_tools
