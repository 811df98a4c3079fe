-- ===== src/Cypher/ReadCypher.antt =====
-- cypher/read_cypher_handler.go: read-cypher. The database service, the formatting of results and the
-- decoding of arguments are parameters; a run gives the calls that it makes, in order, and its reply.
pub mod Gate
pub mod Statements
use neo4j_mcp_canary.Prelude.{
  ℕ, Bool, true, false, ◌&&◌, List, [], ◌∷◌, ◌⊎◌, inl, inr, if◌then◌else◌, ℤ, pos, ltb_int,
}
use neo4j_mcp_canary.Text.{Str, codes, ◌==s◌}
use neo4j_mcp_canary.Graphutil.Value.{Params}
use neo4j_mcp_canary.Database.Keyword.{first_keyword}

-- neo4j.QueryType
pub data QueryType : Type 0 where
  read_only : QueryType
  other_type : Str → QueryType

-- An error of `GetQueryType`.
pub data ClassifyError : Type 0 where
  explain_unsupported : ClassifyError
  classify_failed : Str → ClassifyError

-- An error of `ExecuteReadQueryStreaming`, by the tests that the handler makes on it.
pub record ExecuteError : Type 0 where
  pub has_access_mode_code : Bool
  pub is_deadline_exceeded : Bool
  pub is_canceled : Bool
  pub text : Str

-- What the handler uses of a `database.QueryResult`.
pub record RowReport : Type 0 where
  pub row_count : ℕ
  pub truncated : Bool

-- The methods of the database service, and `tools.EncodeOutput`, for results of type R.
pub record Service (R : Type 0) : Type 0 where
  pub get_query_type : Str → Params → ClassifyError ⊎ QueryType
  pub estimate_row_count : Str → Params → Str ⊎ ℤ
  pub execute_read : Str → Params → ℤ → ℤ → ExecuteError ⊎ R
  pub report_of : R → RowReport
  pub result_to_json : R → Str ⊎ Str
  pub encode_output : Str → Str ⊎ Str

-- tools.ToolDependencies, once the database service is set
pub record Dependencies (R : Type 0) : Type 0 where
  pub service : Service R
  pub analytics_enabled : Bool
  pub max_estimated_rows : ℤ
  pub max_rows : ℤ
  pub max_bytes : ℤ

-- ReadCypherInput
pub record ReadCypherInput : Type 0 where
  pub query : Str
  pub params : Params

pub data Call : Type 0 where
  classified : Str → Params → Call
  estimated : Str → Params → Call
  executed : Str → Params → Call
  -- outcome, estimated rows, actual rows, truncated
  emitted : Str → ℤ → ℕ → Bool → Call

-- The result of the tool: an error message, by where it comes from, or the encoded rows.
pub data Reply : Type 0 where
  not_initialized : Reply
  bind_failed : Str → Reply
  empty_query : Reply
  explain_redirect : Reply
  classification_error : Str → Reply
  profile_redirect : Reply
  write_redirect : Reply
  over_estimate : ℤ → ℤ → Reply
  timed_out : Reply
  cancelled : Reply
  execution_error : Str → Reply
  format_error : Str → Reply
  encode_error : Str → Reply
  rows_reply : Str → Str → Reply

abbrev pub Run : Type 0
Run = List Call × Reply

abbrev pub calls_first : List Call → Run → Run
calls_first [] run = run
calls_first (c ∷ cs) run = let rest = calls_first cs run in (c ∷ rest.0, rest.1)

-- What the estimate left behind: whether it was asked for, whether it failed, and the rows.
pub record Estimate : Type 0 where
  pub consulted : Bool
  pub failed : Bool
  pub rows : ℤ

-- The branches on an error of the execution.
unfoldable pub execute_failed : ExecuteError → Reply
execute_failed e =
    if e.has_access_mode_code
    then write_redirect
    else if e.is_deadline_exceeded
    then timed_out
    else if e.is_canceled
    then cancelled
    else execution_error e.text

module _ {R : Type 0} (deps : Dependencies R) where
  -- emitCypherEstimateAccuracy
  abbrev pub emit : Str → ℤ → ℕ → Bool → List Call
  emit outcome estimate actual truncated =
      if deps.analytics_enabled then emitted outcome estimate actual truncated ∷ [] else []

  abbrev pub emit_executed : Estimate → RowReport → List Call
  emit_executed est report =
      if est.consulted
      then emit (if est.failed then codes "estimate_error" else codes "executed") est.rows
          report.row_count report.truncated
      else []

  abbrev pub encoded : Estimate → R → Str → Str ⊎ Str → Run
  encoded est result json (inl e) = ([], encode_error e)
  encoded est result json (inr response) =
      (emit_executed est (deps.service.report_of result), rows_reply response json)

  abbrev pub formatted : Estimate → R → Str ⊎ Str → Run
  formatted est result (inl e) = ([], format_error e)
  formatted est result (inr json) = encoded est result json (deps.service.encode_output json)

  abbrev pub execution : Estimate → ExecuteError ⊎ R → Run
  execution est (inl e) = ([], execute_failed e)
  execution est (inr result) = formatted est result (deps.service.result_to_json result)

  abbrev pub execute : ReadCypherInput → Estimate → Run
  execute input est = calls_first (executed input.query input.params ∷ []) (
      execution est
        (deps.service.execute_read input.query input.params deps.max_rows deps.max_bytes))

  -- The row estimate, once asked for.
  abbrev pub guarded : ReadCypherInput → Str ⊎ ℤ → Run
  guarded input (inl e) = execute input (record { consulted = true; failed = true; rows = pos 0 })
  guarded input (inr rows) =
      if ltb_int deps.max_estimated_rows rows
      then (
        emit (codes "refused_over_estimate") rows 0 false,
        over_estimate rows deps.max_estimated_rows,
      )
      else execute input (record { consulted = true; failed = false; rows = rows })

  abbrev pub estimate : ReadCypherInput → Run
  estimate input =
      if ltb_int (pos 0) deps.max_estimated_rows
      then calls_first (estimated input.query input.params ∷ [])
          (guarded input (deps.service.estimate_row_count input.query input.params))
      else execute input (record { consulted = false; failed = false; rows = pos 0 })

  abbrev pub classification : ReadCypherInput → ClassifyError ⊎ QueryType → Run
  classification input (inl explain_unsupported) = ([], explain_redirect)
  classification input (inl (classify_failed e)) = ([], classification_error e)
  classification input (inr (other_type t)) = (
    [],
    (if first_keyword input.query ==s codes "PROFILE" then profile_redirect else write_redirect),
  )
  classification input (inr read_only) = estimate input

  abbrev pub classify : ReadCypherInput → Run
  classify input =
      calls_first (classified input.query input.params ∷ [])
        (classification input (deps.service.get_query_type input.query input.params))

  abbrev pub bound : Str ⊎ ReadCypherInput → Run
  bound (inl e) = ([], bind_failed e)
  bound (inr input) = if input.query ==s [] then ([], empty_query) else classify input

abbrev pub with_service : {R : Type 0} → (Str ⊎ ReadCypherInput) → Unit {0} ⊎ Dependencies R → Run
with_service request (inl none_set) = ([], not_initialized)
with_service request (inr deps) = bound deps request

-- handleReadCypher, for the decoded request and the dependencies, if there is a database service
unfoldable pub handle_read_cypher :
    {R : Type 0} → Unit {0} ⊎ Dependencies R → Str ⊎ ReadCypherInput → Run
handle_read_cypher deps request = with_service request deps
