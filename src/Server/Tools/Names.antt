-- ===== src/Server/Tools/Names.antt =====
-- Membership of names in lists of definitions, and what the validation of custom tools gives.
use neo4j_mcp_canary.Prelude.{
  true, false, ◌&&◌, not, List, [], ◌∷◌, none, ◌≡◌, refl, inl, inr, Bool-cases, Memᴰ, and_identity,
}
use mathlib.Core.List.Memᴰ
use neo4j_mcp_canary.Text.{Str, ◌==s◌, contains}
use neo4j_mcp_canary.Text.Laws.{==s_iff, ==s_refl}
use neo4j_mcp_canary.Config.CustomTools.{CustomTool, custom_tool_access_read}
use neo4j_mcp_canary.Server.Middleware.{parse_comma_list}
use neo4j_mcp_canary.Server.Tools.{
  ToolDefinition, ToolConfig, Capabilities, names_of, custom_definition, first_collision,
  validate_custom_tools, all_categories, category_gds, category_search, category_graph,
  category_traversal, category_patterns,
}
use neo4j_mcp_canary.Server.Tools.Check.{is_selected, unavailable_reason}
use neo4j_mcp_canary.Server.Tools.Enabled.{is_registered}

-- No collision: the name is no built-in one, and the category neither.
first_collision-none :
    (names : List Str) (ts : List CustomTool) (t : CustomTool)
    → first_collision names ts ≡ none
    → Memᴰ t ts
    → (contains names t.name ≡ false) × (contains all_categories t.category ≡ false)
unfolding first_collision
first_collision-none names [] t h m = elim m [ ]
first_collision-none names (u ∷ ts) t h m = elim (Bool-cases (contains names u.name)) [
  | inl e ↦ absurd (let h' = rw e at h in cc)
  | inr e ↦ elim (Bool-cases (contains all_categories u.category)) [
    | inl e' ↦ absurd (let h' = rw (e, e') at h in cc)
    | inr e' ↦ elim (Memᴰ.cases_cons m) [
      | inl same ↦ rw same (e, e')
      | inr m' ↦ first_collision-none names ts t (rw (e, e') at h) m'
    ]
  ]
]

not_category :
    (c category : Str)
    → contains all_categories category ≡ true
    → contains all_categories c ≡ false
    → (c ==s category) ≡ false
not_category c category known h = elim (Bool-cases (c ==s category)) [
  | inl e ↦ absurd (let bad = rw ((==s_iff c category).0 e, known) at h in cc)
  | inr e ↦ e
]

-- No capability of the server makes a category of the operator's own unavailable.
no_reason :
    (c : Str) (caps : Capabilities)
    → contains all_categories c ≡ false
    → unavailable_reason c caps ≡ []
unfolding unavailable_reason contains ◌==s◌
no_reason c caps h = rw (
  not_category c category_gds refl h,
  not_category c category_search refl h,
  not_category c category_graph refl h,
  not_category c category_traversal refl h,
  not_category c category_patterns refl h,
)

-- When the validation at start-up finds nothing, no custom tool has the name of a built-in one, and
-- whether a custom tool is registered does not depend on what the connected database supports: it is
-- when it is selected and, on a read-only server, declared to only read.
pub validate_custom_tools_lem :
    (builtin : List ToolDefinition) (config : ToolConfig) (caps : Capabilities) (t : CustomTool)
    → validate_custom_tools builtin config ≡ none
    → Memᴰ t config.custom_tools
    → (contains (names_of builtin) t.name ≡ false)
      × (is_registered config caps (custom_definition t) ≡ (
          is_selected
            (parse_comma_list config.enabled_tools)
            (parse_comma_list config.enabled_tool_categories)
            (custom_definition t)
          && not (config.read_only && not (t.access ==s custom_tool_access_read))))
unfolding validate_custom_tools
validate_custom_tools_lem builtin config caps t h m =
    let (name, category) = first_collision-none (names_of builtin) config.custom_tools t h m in
    (name, rw (no_reason t.category caps category, ==s_refl []) (and_identity _))
