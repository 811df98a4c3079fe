-- ===== src/Tools/Custom/Access.antt =====
-- What a custom tool does to the database.
use neo4j_mcp_canary.Prelude.{List, [], ◌∷◌, ◌⊎◌, inl, inr, ◌≡◌, ◌≢◌, refl, sym, ◌∙◌, Bool-cases}
use neo4j_mcp_canary.Text.{Str, ◌==s◌}
use neo4j_mcp_canary.Text.Laws.{==s_iff, ==s_refl}
use neo4j_mcp_canary.Graphutil.Value.{Params}
use neo4j_mcp_canary.Config.CustomTools.{CustomTool, Floats, custom_tool_access_read}
use neo4j_mcp_canary.Cypher.ReadCypher.{QueryType, read_only, other_type}
use neo4j_mcp_canary.Tools.Custom.{
  BuildError, build_params, CustomService, CustomCall, classified, executed_read, executed_write,
  run_read, run_built, handler,
}

-- The calls of a run that go with its tool: nothing is executed, or the classification alone was
-- asked for, or the statement is executed once, with the arguments that were built and the caps, after a
-- classification as read-only for a tool that is declared to read, and as a write for any other.
pub data Effects {R : Type 0} (service : CustomService R) (def : CustomTool)
    (built : BuildError ⊎ Params) : List CustomCall → Type 0 where
  nothing : Effects service def built []
  asked :
      (params : Params)
      → built ≡ inr params
      → def.access ≡ custom_tool_access_read
      → service.get_query_type def.statement params ≢ inr read_only
      → Effects service def built (classified def.statement params ∷ [])
  read :
      (params : Params)
      → built ≡ inr params
      → def.access ≡ custom_tool_access_read
      → service.get_query_type def.statement params ≡ inr read_only
      → Effects service def built (
          classified def.statement params
          ∷ executed_read def.statement params service.max_rows service.max_bytes
          ∷ [])
  wrote :
      (params : Params)
      → built ≡ inr params
      → def.access ≢ custom_tool_access_read
      → Effects service def built
          (executed_write def.statement params service.max_rows service.max_bytes ∷ [])

run_read_lem :
    {R : Type 0} (service : CustomService R) (def : CustomTool) (built : BuildError ⊎ Params)
    (params : Params) (q : Str ⊎ QueryType)
    → built ≡ inr params
    → def.access ≡ custom_tool_access_read
    → service.get_query_type def.statement params ≡ q
    → Effects service def built (run_read service def params q).0
run_read_lem service def built params (inl e) b a c =
    asked params b a (λ h. let bad = sym c ∙ h in absurd (cc))
run_read_lem service def built params (inr (other_type t)) b a c =
    asked params b a (λ h. let bad = sym c ∙ h in absurd (cc))
run_read_lem service def built params (inr read_only) b a c = read params b a c

run_built_lem :
    {R : Type 0} (service : CustomService R) (def : CustomTool) (built b : BuildError ⊎ Params)
    → built ≡ b
    → Effects service def built (run_built service def b).0
run_built_lem service def built (inl e) h = nothing
run_built_lem service def built (inr params) h =
    elim (Bool-cases (def.access ==s custom_tool_access_read)) [
      | inl e ↦ rw e (run_read_lem service def built params _ h ((==s_iff _ _).0 e) refl)
      | inr e ↦ rw e (
          wrote params h
            (λ same. let bad = rw (same, ==s_refl custom_tool_access_read) at e in absurd (cc)))
    ]

-- A custom tool that is declared to read never executes a write, and executes its statement only
-- after the database has classified it, with the same arguments, as read-only; any other custom tool
-- executes its statement as a write at most once. Nothing is executed when the arguments are refused.
pub handler-Effects :
    {R : Type 0} (floats : Floats) (service : CustomService R) (def : CustomTool) (args : Params)
    → Effects service def
        (build_params floats def args)
        (handler floats (inr service) def (inr args)).0
unfolding handler
handler-Effects floats service def args =
    run_built_lem service def (build_params floats def args) (build_params floats def args) refl
