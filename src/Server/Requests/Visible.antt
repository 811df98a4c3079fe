-- ===== src/Server/Requests/Visible.antt =====
-- What a request sees of the registered tools.
use neo4j_mcp_canary.Prelude.{
  Bool, true, false, ◌&&◌, List, [], ◌∷◌, Option, none, some, ◌≡◌, refl, sym, ap, ◌∙◌, inl, inr,
  Bool-cases, and_identity,
}
use neo4j_mcp_canary.Text.{Str, ◌==s◌, contains}
use neo4j_mcp_canary.Text.Laws.{==s_iff}
use neo4j_mcp_canary.Auth.{Context}
use neo4j_mcp_canary.Server.Tools.{ToolDefinition, ToolConfig, keep, names_of}
use neo4j_mcp_canary.Server.Requests.{
  ServerState, is_allowed, narrowed, passes_call, list_tools, tool_access_filter,
}

pub and_false : (b : Bool) → (b && false) ≡ false
and_false true = refl
and_false false = refl

-- A name in a narrowed list is one of the list that the test on names lets through.
contains-keep :
    (p : Str → Bool) (ts : List ToolDefinition) (n : Str)
    → contains (names_of (keep (λ t. p t.name) ts)) n ≡ (contains (names_of ts) n && p n)
unfolding contains keep
contains-keep p [] n = refl
contains-keep p (t ∷ ts) n = elim (Bool-cases (t.name ==s n)) [
  | inl e ↦
      let q = ap p ((==s_iff t.name n).0 e) in
      elim (Bool-cases (p n)) [
        | inl b ↦ rw (q ∙ b, e, b)
        | inr b ↦ rw (q ∙ b, e, b, contains-keep p ts n, b) (and_false _)
      ]
  | inr e ↦ elim (Bool-cases (p t.name)) [
    | inl b ↦ rw (b, e) (contains-keep p ts n)
    | inr b ↦ rw (b, e) (contains-keep p ts n)
  ]
]

narrowed_lem :
    (o : Option (List Str)) (ts : List ToolDefinition) (n : Str)
    → contains (names_of (narrowed o ts)) n ≡ (contains (names_of ts) n && is_allowed o n)
narrowed_lem none ts n = sym (and_identity _)
narrowed_lem (some allowed) ts n = contains-keep (contains allowed) ts n

-- For every request, a tool is listed exactly when it is registered on the server and a call of it
-- would be passed on: the filter on tools/list and the one on tools/call show the same tools, and a
-- request sees no tool that is not registered.
pub list_tools-passes_call :
    (builtin : List ToolDefinition) (config : ToolConfig) (ctx : Context) (s : ServerState)
    (n : Str)
    → contains (names_of (list_tools builtin config ctx s)) n
      ≡ (contains (names_of s.tools) n && passes_call builtin config ctx n)
unfolding list_tools passes_call
list_tools-passes_call builtin config ctx s n =
    narrowed_lem (tool_access_filter builtin config ctx) s.tools n
