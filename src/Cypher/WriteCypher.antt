-- ===== src/Cypher/WriteCypher.antt =====
-- cypher/write_cypher_handler.go: write-cypher. The database service, the formatting of results and the
-- decoding of arguments are parameters; a run gives the statements that it executes, in order, and its
-- reply. What is written to the log is left out.
pub mod Gate
use neo4j_mcp_canary.Prelude.{Bool, List, [], ◌∷◌, ◌⊎◌, inl, inr, if◌then◌else◌, ℤ}
use neo4j_mcp_canary.Text.{Str, codes, ◌==s◌}
use neo4j_mcp_canary.Graphutil.Value.{Params}
use neo4j_mcp_canary.Database.Keyword.{first_keyword}
use neo4j_mcp_canary.Cypher.ReadCypher.{ExecuteError}

-- The methods of the database service, and `tools.EncodeOutput`, for results of type R, with the caps
-- of tools.ToolDependencies.
pub record WriteDependencies (R : Type 0) : Type 0 where
  pub execute_write : Str → Params → ℤ → ℤ → ExecuteError ⊎ R
  pub result_to_json : R → Str ⊎ Str
  pub encode_output : Str → Str ⊎ Str
  pub max_rows : ℤ
  pub max_bytes : ℤ

-- WriteCypherInput
pub record WriteCypherInput : Type 0 where
  pub query : Str
  pub params : Params

-- The result of the tool: an error message, by where it comes from, or the encoded rows.
pub data WriteReply : Type 0 where
  service_missing : WriteReply
  undecoded : Str → WriteReply
  empty_write : WriteReply
  explain_rejected : WriteReply
  profile_rejected : WriteReply
  write_timed_out : WriteReply
  write_cancelled : WriteReply
  write_error : Str → WriteReply
  unformatted : Str → WriteReply
  unencoded : Str → WriteReply
  write_rows : Str → Str → WriteReply

-- An execution of a statement, with its parameters and the caps on its result.
pub data WriteCall : Type 0 where
  executed_write : Str → Params → ℤ → ℤ → WriteCall

abbrev pub WriteRun : Type 0
WriteRun = List WriteCall × WriteReply

-- The branches on an error of the execution.
unfoldable pub write_failed : ExecuteError → WriteReply
write_failed e =
    if e.is_deadline_exceeded
    then write_timed_out
    else if e.is_canceled
    then write_cancelled
    else write_error e.text

module _ {R : Type 0} (deps : WriteDependencies R) where
  abbrev pub encoded_write : Str → Str ⊎ Str → WriteReply
  encoded_write json (inl e) = unencoded e
  encoded_write json (inr response) = write_rows response json

  abbrev pub formatted_write : Str ⊎ Str → WriteReply
  formatted_write (inl e) = unformatted e
  formatted_write (inr json) = encoded_write json (deps.encode_output json)

  abbrev pub written : ExecuteError ⊎ R → WriteReply
  written (inl e) = write_failed e
  written (inr result) = formatted_write (deps.result_to_json result)

  abbrev pub run_write : WriteCypherInput → WriteRun
  run_write input = (
    executed_write input.query input.params deps.max_rows deps.max_bytes ∷ [],
    written (deps.execute_write input.query input.params deps.max_rows deps.max_bytes),
  )

  -- The switch on the first keyword.
  abbrev pub by_keyword : WriteCypherInput → Str → WriteRun
  by_keyword input keyword =
      if keyword ==s codes "EXPLAIN"
      then ([], explain_rejected)
      else if keyword ==s codes "PROFILE"
      then ([], profile_rejected)
      else run_write input

  abbrev pub bound_write : Str ⊎ WriteCypherInput → WriteRun
  bound_write (inl e) = ([], undecoded e)
  bound_write (inr input) =
      if input.query ==s [] then ([], empty_write) else by_keyword input (first_keyword input.query)

abbrev pub with_write_service :
    {R : Type 0} → (Str ⊎ WriteCypherInput) → Unit {0} ⊎ WriteDependencies R → WriteRun
with_write_service request (inl none_set) = ([], service_missing)
with_write_service request (inr deps) = bound_write deps request

-- handleWriteCypher, for the decoded request and the dependencies, if there is a database service
unfoldable pub handle_write_cypher :
    {R : Type 0} → Unit {0} ⊎ WriteDependencies R → Str ⊎ WriteCypherInput → WriteRun
handle_write_cypher deps request = with_write_service request deps
