-- ===== src/Server/Requests/Verified.antt =====
-- The verification of the database over the handshakes of a server's life.
use neo4j_mcp_canary.Prelude.{
  Bool, true, false, ◌||◌, List, [], ◌∷◌, Option, none, some, ◌≡◌, refl, sym, ap, ◌∙◌, inl, inr,
  Bool-cases, if◌then◌else◌, and_split, or_identity, or_right, some_inj,
}
use neo4j_mcp_canary.Text.{Str, ◌==s◌, contains}
use neo4j_mcp_canary.Text.Laws.{==s_iff}
use neo4j_mcp_canary.Server.Tools.{
  ToolDefinition, ToolConfig, Capabilities, keep, names_of, get_all_tools_defs, get_enabled_tools,
  is_cypher25_category, category_gds, category_search,
}
use neo4j_mcp_canary.Server.Tools.Check.{unavailable_reason}
use neo4j_mcp_canary.Server.Tools.Enabled.{is_registered, get_enabled_tools_lem}
use neo4j_mcp_canary.Server.Requests.{
  ServerState, add_tool, add_tools, start, no_capabilities, after_verification,
  verify_on_first_request, handshakes, on_outcome,
}

or_twice : (b c : Bool) → (b || c) ≡ (b || c || b)
or_twice true c = refl
or_twice false c = sym (or_identity c)

or_assoc : (a b c : Bool) → (a || (b || c)) ≡ (a || b || c)
or_assoc true b c = refl
or_assoc false b c = refl

abbrev is_offered : Str → List ToolDefinition → Bool
is_offered n ts = contains (names_of ts) n

contains-add_tool :
    (d : ToolDefinition) (ts : List ToolDefinition) (n : Str)
    → is_offered n (add_tool d ts) ≡ (is_offered n ts || d.name ==s n)
unfolding add_tool contains
contains-add_tool d [] n = or_identity (d.name ==s n)
contains-add_tool d (t ∷ ts) n = elim (Bool-cases (t.name ==s d.name)) [
  | inl e ↦
      rw (e, ap (λ m. m ==s n) ((==s_iff t.name d.name).0 e))
        (or_twice (d.name ==s n) (is_offered n ts))
  | inr e ↦
      rw (e, contains-add_tool d ts n) (or_assoc (t.name ==s n) (is_offered n ts) (d.name ==s n))
]

contains-add_tools :
    (ds ts : List ToolDefinition) (n : Str)
    → is_offered n (add_tools ds ts) ≡ (is_offered n ts || is_offered n ds)
unfolding add_tools contains
contains-add_tools [] ts n = sym (or_identity (is_offered n ts))
contains-add_tools (d ∷ ds) ts n =
    contains-add_tools ds (add_tool d ts) n
    ∙ rw (contains-add_tool d ts n)
        (sym (or_assoc (is_offered n ts) (d.name ==s n) (is_offered n ds)))

-- What passes a test passes a weaker one.
offered_mono :
    (p q : ToolDefinition → Bool) (ts : List ToolDefinition) (n : Str)
    → ((t : ToolDefinition) → p t ≡ true → q t ≡ true)
    → is_offered n (keep p ts) ≡ true
    → is_offered n (keep q ts) ≡ true
unfolding keep contains
offered_mono p q [] n h o = o
offered_mono p q (t ∷ ts) n h o = elim (Bool-cases (p t)) [
  | inl e ↦ rw (h t e) (elim (Bool-cases (t.name ==s n)) [
    | inl b ↦ rw b
    | inr b ↦ rw b (offered_mono p q ts n h (rw (e, b) at o))
  ])
  | inr e ↦ elim (Bool-cases (q t)) [
    | inl k ↦ rw k (or_right _ (offered_mono p q ts n h (rw e at o)))
    | inr k ↦ rw k (offered_mono p q ts n h (rw e at o))
  ]
]

-- A category that is available without any capability always is.
available_mono :
    (c : Str) (caps : Capabilities)
    → (unavailable_reason c no_capabilities ==s []) ≡ true
    → (unavailable_reason c caps ==s []) ≡ true
unfolding unavailable_reason ◌==s◌
available_mono c caps h = elim (Bool-cases (c ==s category_gds)) [
  | inl e ↦ absurd (let h' = rw e at h in cc)
  | inr e ↦ elim (Bool-cases (c ==s category_search)) [
    | inl e' ↦ absurd (let h' = rw (e, e') at h in cc)
    | inr e' ↦ elim (Bool-cases (is_cypher25_category c)) [
      | inl e'' ↦ absurd (let h' = rw (e, e', e'') at h in cc)
      | inr e'' ↦ rw (e, e', e'')
    ]
  ]
]

registered_mono :
    (config : ToolConfig) (caps : Capabilities) (t : ToolDefinition)
    → is_registered config no_capabilities t ≡ true
    → is_registered config caps t ≡ true
registered_mono config caps t h =
    let (a, b) = and_split _ (unavailable_reason t.category no_capabilities ==s []) h in
    rw (a, available_mono t.category caps b)

-- The first verification that succeeds.
abbrev pub first_success : List (Option Capabilities) → Option Capabilities
first_success [] = none
first_success (none ∷ os) = first_success os
first_success (some caps ∷ os) = some caps

all_false_fields :
    (gds search cypher25 : Bool)
    → (gds || search || cypher25) ≡ false
    → ◌≡◌ {A = Capabilities}
        (record {
          gds_installed = gds;
          search_version_supported = search;
          cypher25_supported = cypher25;
        })
        no_capabilities
all_false_fields true search cypher25 h = absurd (cc)
all_false_fields false true cypher25 h = absurd (cc)
all_false_fields false false true h = absurd (cc)
all_false_fields false false false h = refl

all_false :
    (caps : Capabilities)
    → (caps.gds_installed || caps.search_version_supported || caps.cypher25_supported) ≡ false
    → caps ≡ no_capabilities
all_false caps h =
    all_false_fields caps.gds_installed caps.search_version_supported caps.cypher25_supported h

if_true : (b : Bool) (x y : ServerState) → b ≡ true → (if b then x else y) ≡ x
if_true true x y h = refl
if_true false x y h = absurd (cc)

module _ (builtin : List ToolDefinition) (config : ToolConfig) where
  abbrev enabled : Capabilities → List ToolDefinition
  enabled caps = get_enabled_tools builtin config caps

  -- Registering the tools of the capabilities over those of none leaves the former.
  merged :
      (caps : Capabilities) (n : Str)
      → (is_offered n (enabled no_capabilities) || is_offered n (enabled caps))
        ≡ is_offered n (enabled caps)
  merged caps n = elim (Bool-cases (is_offered n (enabled no_capabilities))) [
    | inr e ↦ rw e
    | inl e ↦
        let all = get_all_tools_defs builtin config in
        let more : is_offered n (enabled caps) ≡ true =
          ap (is_offered n) (get_enabled_tools_lem builtin config caps)
          ∙ offered_mono (is_registered config no_capabilities) (is_registered config caps) all n
              (registered_mono config caps)
              (ap (is_offered n) (sym (get_enabled_tools_lem builtin config no_capabilities))
                ∙ e) in
        rw (e, more)
  ]

  after_lem :
      (caps : Capabilities) (n : Str)
      → is_offered n (after_verification builtin config (start builtin config) caps).tools
        ≡ is_offered n (enabled caps)
  unfolding start contains
  after_lem caps n =
      let any = caps.gds_installed || caps.search_version_supported || caps.cypher25_supported in
      let tools = add_tools (enabled no_capabilities) [] in
      let first : is_offered n tools ≡ is_offered n (enabled no_capabilities) =
        contains-add_tools (enabled no_capabilities) [] n in
      elim (Bool-cases any) [
        | inl e ↦ rw (e, contains-add_tools (enabled caps) tools n, first) (merged caps n)
        | inr e ↦ rw (e, first) (ap (λ c. is_offered n (enabled c)) (sym (all_false caps e)))
      ]

  -- Once verified, nothing changes.
  stay :
      (s : ServerState) (os : List (Option Capabilities))
      → s.connection_verified ≡ true
      → handshakes builtin config s os ≡ s
  unfolding handshakes verify_on_first_request
  stay s [] h = refl
  stay s (o ∷ os) h =
      ap (λ t. handshakes builtin config t os)
        (if_true s.connection_verified s (on_outcome builtin config s o) h)
      ∙ stay s os h

  handshakes_lem :
      (os : List (Option Capabilities)) (caps : Capabilities)
      → first_success os ≡ some caps
      → handshakes builtin config (start builtin config) os
        ≡ after_verification builtin config (start builtin config) caps
  unfolding handshakes verify_on_first_request start
  handshakes_lem [] caps h = absurd (cc)
  handshakes_lem (none ∷ os) caps h = handshakes_lem os caps h
  handshakes_lem (some c ∷ os) caps h =
      stay (after_verification builtin config (start builtin config) c) os refl
      ∙ ap (after_verification builtin config (start builtin config)) (some_inj h)

  -- Over any sequence of handshakes in which a verification of the database succeeds, whatever fails
  -- before and whatever comes after it, the server ends up verified with the capabilities that the
  -- first success found, announces its connection exactly once, and has registered, by name, exactly
  -- the tools that are enabled for these capabilities.
  pub handshakes_verified :
      (os : List (Option Capabilities)) (caps : Capabilities)
      → first_success os ≡ some caps
      → let s = handshakes builtin config (start builtin config) os in
        (s.connection_verified ≡ true)
        × (s.capabilities ≡ caps)
        × (s.connection_initialized_events ≡ 1)
        × ((n : Str) → is_offered n s.tools ≡ is_offered n (enabled caps))
  unfolding start
  handshakes_verified os caps h =
      let e = handshakes_lem os caps h in
      (
        ap (λ (s : ServerState). s.connection_verified) e,
        ap (λ (s : ServerState). s.capabilities) e,
        ap (λ (s : ServerState). s.connection_initialized_events) e,
        λ n. ap (λ (s : ServerState). is_offered n s.tools) e ∙ after_lem caps n,
      )
