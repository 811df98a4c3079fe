-- ===== src/Cypher/SchemaDrop/Dropped.antt =====
-- What the tools that drop a constraint or an index do to the database, and what they report.
use neo4j_mcp_canary.Prelude.{false, List, [], ◌∷◌, ◌++◌, ◌≡◌, ◌⊎◌, inr, none, some, true}
use neo4j_mcp_canary.Text.{Str, codes, ◌==s◌}
use neo4j_mcp_canary.Graphutil.Value.{Params}
use neo4j_mcp_canary.Graphutil.Quote.ReadBack.{read_identifier}
use neo4j_mcp_canary.Cypher.SchemaDrop.{
  DropService, DropCall, looked_up, dropped, DropReply, drop_done, DropRun, DropKind, name_params,
  has_records, drop_statement,
}

module _ (kind : DropKind) (service : DropService) where
  -- The name is looked up, and then one statement is run, which drops what has this name.
  abbrev pub DropsAfterLookup : Str → List DropCall → Type 0
  DropsAfterLookup name calls =
      (q : Str) × (calls
        ≡ looked_up kind.exists_query (name_params name) ∷ dropped (kind.command ++ q) ∷ [])
      × (read_identifier q ≡ some (name, codes " IF EXISTS"))

  -- The reply reports whether the lookup found the name, and comes behind a drop that succeeded.
  abbrev pub Reports : Str → DropReply → Type 0
  Reports name reply =
      (response json : Str)
      → reply ≡ drop_done response json
      → (records : List Params) × (service.execute_read kind.exists_query (name_params name)
          ≡ inr records)
        × (service.execute_write (drop_statement kind name) ≡ none)
        × (service.marshal name (has_records records) ≡ inr json)

  pub data DropOutcome (request : Str ⊎ Str) (run : DropRun) : Type 0 where
    refused :
        ((name : Str) → request ≡ inr name → (name ==s []) ≡ true)
        → run.0 ≡ []
        → ((response json : Str) → ¬ (run.1 ≡ drop_done response json))
        → DropOutcome request run
    not_found_out :
        (name : Str)
        → request ≡ inr name
        → (name ==s []) ≡ false
        → run.0 ≡ looked_up kind.exists_query (name_params name) ∷ []
        → ((response json : Str) → ¬ (run.1 ≡ drop_done response json))
        → DropOutcome request run
    attempted :
        (name : Str)
        → request ≡ inr name
        → (name ==s []) ≡ false
        → DropsAfterLookup name run.0
        → Reports name run.1
        → DropOutcome request run
