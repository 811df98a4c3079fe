-- ===== src/Server/Tools/Enabled.antt =====
-- The filters of the server against the tests of the check of the configuration.
use neo4j_mcp_canary.Text.Laws.{==s_iff}
use neo4j_mcp_canary.Prelude.{
  Bool, true, false, ◌&&◌, ◌||◌, not, List, [], ◌∷◌, ◌++◌, ◌≡◌, refl, sym, ap, inl, inr, Bool-cases,
  arith, ◌∙◌,
}
use mathlib.Core.Path.{subst}
use neo4j_mcp_canary.Text.{Str, ◌==s◌, contains}
use neo4j_mcp_canary.Server.Middleware.{parse_comma_list}
use neo4j_mcp_canary.Server.Tools.{
  ToolDefinition, ToolConfig, Capabilities, ToolFilter, keep, apply_filters, is_cypher25_category,
  category_gds, category_search, category_traversal, category_patterns, category_graph, filters,
  filter_by_selection, filter_write_tools, filter_gds_tools, filter_search_tools,
  filter_cypher25_tools, is_nil, get_enabled_tools, get_all_tools_defs, optional,
}
use neo4j_mcp_canary.Server.Tools.Check.{is_selected, is_removed, unavailable_reason}

-- The tools that the check of the configuration takes to be registered and available.
abbrev pub is_registered : ToolConfig → Capabilities → ToolDefinition → Bool
is_registered config caps d =
    is_selected (parse_comma_list config.enabled_tools)
      (parse_comma_list config.enabled_tool_categories) d
    && not (is_removed config d)
    && unavailable_reason d.category caps ==s []

keep-keep :
    (p q : ToolDefinition → Bool) (ds : List ToolDefinition)
    → keep q (keep p ds) ≡ keep (λ d. p d && q d) ds
unfolding keep
keep-keep p q [] = refl
keep-keep p q (d ∷ ds) = elim (Bool-cases (p d)) [
  | inl e ↦ rw (e, keep-keep p q ds)
  | inr e ↦ rw (e, keep-keep p q ds)
]

keep_all : (ds : List ToolDefinition) → keep (λ d. true) ds ≡ ds
unfolding keep
keep_all [] = refl
keep_all (d ∷ ds) = ap (λ r. d ∷ r) (keep_all ds)

keep_ext :
    (p q : ToolDefinition → Bool) (ds : List ToolDefinition)
    → ((d : ToolDefinition) → p d ≡ q d)
    → keep p ds ≡ keep q ds
unfolding keep
keep_ext p q [] h = refl
keep_ext p q (d ∷ ds) h = rw (h d, keep_ext p q ds h)

apply-append :
    (fs gs : List ToolFilter) (ds : List ToolDefinition)
    → apply_filters (fs ++ gs) ds ≡ apply_filters gs (apply_filters fs ds)
apply-append [] gs ds = refl
apply-append (f ∷ fs) gs ds = apply-append fs gs (f ds)

-- A filter that is applied under a condition.
optional-keep :
    (b : Bool) (f : ToolFilter) (p : ToolDefinition → Bool) (ds : List ToolDefinition)
    → ((es : List ToolDefinition) → f es ≡ keep p es)
    → apply_filters (optional b f) ds ≡ keep (λ d. not b || p d) ds
optional-keep true f p ds h = h ds
optional-keep false f p ds h = sym (keep_all ds)

-- A category is kept by the three filters on the server's capabilities.
abbrev is_kept : Str → Bool → Bool → Bool → Bool
is_kept c gds search cypher25 =
    (not (not gds) || not (c ==s category_gds))
    && (not (not search) || not (c ==s category_search))
    && (not (not cypher25) || not (is_cypher25_category c))

abbrev has_no_reason : Str → Bool → Bool → Bool → Bool
has_no_reason c gds search cypher25 =
    unavailable_reason c (record {
      gds_installed = gds;
      search_version_supported = search;
      cypher25_supported = cypher25;
    })
    ==s []

-- The two agree, for whatever tests on the category exclude each other.
Agree : Str → Type 0
Agree c =
    (gds search cypher25 : Bool)
    → is_kept c gds search cypher25 ≡ has_no_reason c gds search cypher25

Agree-gds : Agree category_gds
unfolding Agree unavailable_reason ◌==s◌
Agree-gds gds search cypher25 = ground arith

Agree-search : Agree category_search
unfolding Agree unavailable_reason ◌==s◌
Agree-search gds search cypher25 = ground arith

Agree-graph : Agree category_graph
unfolding Agree unavailable_reason ◌==s◌
Agree-graph gds search cypher25 = ground arith

Agree-traversal : Agree category_traversal
unfolding Agree unavailable_reason ◌==s◌
Agree-traversal gds search cypher25 = ground arith

Agree-patterns : Agree category_patterns
unfolding Agree unavailable_reason ◌==s◌
Agree-patterns gds search cypher25 = ground arith

Agree-other :
    (c : Str)
    → (c ==s category_gds) ≡ false
    → (c ==s category_search) ≡ false
    → (c ==s category_graph) ≡ false
    → (c ==s category_traversal) ≡ false
    → (c ==s category_patterns) ≡ false
    → Agree c
unfolding Agree unavailable_reason ◌==s◌
Agree-other c e1 e2 e3 e4 e5 gds search cypher25 = rw (e1, e2, e3, e4, e5) (ground arith)

agree : (c : Str) → Agree c
agree c = elim (Bool-cases (c ==s category_gds)) [
  | inl e ↦ subst Agree (sym ((==s_iff _ _).0 e)) Agree-gds
  | inr e1 ↦ elim (Bool-cases (c ==s category_search)) [
    | inl e ↦ subst Agree (sym ((==s_iff _ _).0 e)) Agree-search
    | inr e2 ↦ elim (Bool-cases (c ==s category_graph)) [
      | inl e ↦ subst Agree (sym ((==s_iff _ _).0 e)) Agree-graph
      | inr e3 ↦ elim (Bool-cases (c ==s category_traversal)) [
        | inl e ↦ subst Agree (sym ((==s_iff _ _).0 e)) Agree-traversal
        | inr e4 ↦ elim (Bool-cases (c ==s category_patterns)) [
          | inl e ↦ subst Agree (sym ((==s_iff _ _).0 e)) Agree-patterns
          | inr e5 ↦ Agree-other c e1 e2 e3 e4 e5
        ]
      ]
    ]
  ]
]

step :
    (fs gs : List ToolFilter) (p q : ToolDefinition → Bool)
    → ((es : List ToolDefinition) → apply_filters fs es ≡ keep p es)
    → ((es : List ToolDefinition) → apply_filters gs es ≡ keep q es)
    → (es : List ToolDefinition) → apply_filters (fs ++ gs) es ≡ keep (λ d. p d && q d) es
step fs gs p q hp hq es =
    apply-append fs gs es ∙ hq (apply_filters fs es) ∙ ap (keep q) (hp es) ∙ keep-keep p q es

selection_lem :
    (names categories : List Str) (es : List ToolDefinition)
    → filter_by_selection names categories es ≡ keep (is_selected names categories) es
unfolding filter_by_selection
selection_lem [] [] es = sym (keep_all es)
selection_lem [] (c ∷ cs) es = refl
selection_lem (n ∷ ns) cs es = refl

pointwise :
    (n c s t ro r g se k reason : Bool)
    → (g && se && k) ≡ reason
    → ((not (not n || not c) || ((n && c) || s || t)) && ((not ro || r) && (g && (se && k))))
      ≡ (((n && c) || s || t) && not (ro && not r) && reason)
pointwise n c s t ro r g se k reason h = ground arith

-- The definitions that pass every filter.
filtered :
    (config : ToolConfig) (caps : Capabilities) (ds : List ToolDefinition)
    → apply_filters (filters config caps) ds ≡ keep (is_registered config caps) ds
unfolding filters filter_write_tools filter_gds_tools filter_search_tools filter_cypher25_tools
    Agree
filtered config caps ds =
    let names = parse_comma_list config.enabled_tools in
    let categories = parse_comma_list config.enabled_tool_categories in
    let selecting = not (is_nil names) || not (is_nil categories) in
    let f1 = optional selecting (filter_by_selection names categories) in
    let f2 = optional config.read_only filter_write_tools in
    let f3 = optional (not caps.gds_installed) filter_gds_tools in
    let f4 = optional (not caps.search_version_supported) filter_search_tools in
    let f5 = optional (not caps.cypher25_supported) filter_cypher25_tools in
    let not_gds = λ (d : ToolDefinition). not (d.category ==s category_gds) in
    let not_search = λ (d : ToolDefinition). not (d.category ==s category_search) in
    let not_cypher25 = λ (d : ToolDefinition). not (is_cypher25_category d.category) in
    step f1 (f2 ++ (f3 ++ (f4 ++ f5))) _ _
      (λ es.
        optional-keep selecting (filter_by_selection names categories)
          (is_selected names categories) es (selection_lem names categories))
      (step f2 (f3 ++ (f4 ++ f5)) _ _
        (λ es. optional-keep config.read_only filter_write_tools (λ d. d.readonly) es (λ fs. refl))
        (step f3 (f4 ++ f5) _ _
          (λ es. optional-keep (not caps.gds_installed) filter_gds_tools not_gds es (λ fs. refl))
          (step f4 f5 _ _
            (λ es.
              optional-keep (not caps.search_version_supported) filter_search_tools not_search es
                (λ fs. refl))
            (λ es.
              optional-keep (not caps.cypher25_supported) filter_cypher25_tools not_cypher25 es
                (λ fs. refl)))))
      ds
    ∙ keep_ext _ (is_registered config caps) ds (λ d.
      pointwise (is_nil names) (is_nil categories) (contains names d.name)
        (contains categories d.category) config.read_only d.readonly
        (not (not caps.gds_installed) || not (d.category ==s category_gds))
        (not (not caps.search_version_supported) || not (d.category ==s category_search))
        (not (not caps.cypher25_supported) || not (is_cypher25_category d.category))
        (unavailable_reason d.category caps ==s [])
        (agree d.category caps.gds_installed caps.search_version_supported caps.cypher25_supported))

-- The server offers, in the order of their definitions, exactly the tools that the check of the
-- configuration takes to be selected, not removed by the read-only mode, and of a category for which
-- it finds no reason to be unavailable: the five filters and the check agree on every tool.
pub get_enabled_tools_lem :
    (builtin : List ToolDefinition) (config : ToolConfig) (caps : Capabilities)
    → get_enabled_tools builtin config caps
      ≡ keep (is_registered config caps) (get_all_tools_defs builtin config)
unfolding get_enabled_tools
get_enabled_tools_lem builtin config caps = filtered config caps (get_all_tools_defs builtin config)
