-- ===== src/Tools/Custom.antt =====
-- tools/custom/custom.go: the arguments of a custom tool, and its handler. The database service, the
-- formatting of results and the decoding of arguments are parameters; a run gives the calls that it
-- makes, in order, and its reply. A Go map is read in the order of its association list.
pub mod Bound
pub mod Typed
pub mod Access
use neo4j_mcp_canary.Graphutil.Filters.{is_null}
use neo4j_mcp_canary.Prelude.{
  Bool, true, false, ◌&&◌, ◌||◌, not, List, [], ◌∷◌, ◌⊎◌, inl, inr, Option, none, some,
  if◌then◌else◌, ltb_int, ℤ,
}
use neo4j_mcp_canary.Text.{Str, ◌==s◌, contains}
use neo4j_mcp_canary.Graphutil.Value.{Value, null, bool, int, float, str, Params, assign, lookup}
use neo4j_mcp_canary.Config.CustomTools.{
  CustomToolParam, CustomTool, Floats, coerce_custom_param, custom_tool_access_read, param_names,
}
use neo4j_mcp_canary.Cypher.ReadCypher.{QueryType, read_only, other_type, ExecuteError}

-- An error of BuildParams.
pub data BuildError : Type 0 where
  unknown_argument : Str → BuildError
  missing_argument : Str → BuildError
  bad_argument : Str → BuildError
  not_a_choice : Str → Value → BuildError

-- `==` on the values that coercion gives.
abbrev pub same_value : Floats → Value → Value → Bool
same_value floats (str s) (str t) = s ==s t
same_value floats (bool true) (bool true) = true
same_value floats (bool false) (bool false) = true
same_value floats (int m) (int n) = not (ltb_int m n) && not (ltb_int n m)
same_value floats (float f) (float g) = floats.equal f g
same_value floats v w = false

-- enumContains
unfoldable pub enum_contains : Floats → Str → List Value → Value → Bool
enum_contains floats param_type [] v = false
enum_contains floats param_type (e ∷ es) v =
    let rest = enum_contains floats param_type es v in
    elim (coerce_custom_param floats param_type e) [
      | none ↦ rest
      | some c ↦ same_value floats c v || rest
    ]

abbrev pub has_no_choices : List Value → Bool
has_no_choices [] = true
has_no_choices (v ∷ vs) = false

-- The check of a coerced value against the choices.
abbrev pub chosen : Floats → CustomToolParam → Option Value → BuildError ⊎ Value
chosen floats p none = inl (bad_argument p.name)
chosen floats p (some v) =
    if not (has_no_choices p.choices) && not (enum_contains floats p.param_type p.choices v)
    then inl (not_a_choice p.name v)
    else inr v

abbrev pub coerced : Floats → CustomToolParam → Value → BuildError ⊎ Value
coerced floats p raw = chosen floats p (coerce_custom_param floats p.param_type raw)

-- A parameter without an argument, or with a null one.
unfoldable pub omitted : Floats → CustomToolParam → BuildError ⊎ Value
unfolding enum_contains
omitted floats p =
    if not (is_null p.default_value)
    then coerced floats p p.default_value
    else if p.required
    then inl (missing_argument p.name)
    else inr null

-- What a parameter is bound to, from its argument, if there is one.
unfoldable pub bound_value : Floats → CustomToolParam → Option Value → BuildError ⊎ Value
unfolding omitted
bound_value floats p none = omitted floats p
bound_value floats p (some raw) = if is_null raw then omitted floats p else coerced floats p raw

abbrev pub bind_param : Str → Params → BuildError ⊎ Value → BuildError ⊎ Params
bind_param name params (inl e) = inl e
bind_param name params (inr v) = inr (assign name v params)

abbrev pub then_bind : BuildError ⊎ Params → (Params → BuildError ⊎ Params) → BuildError ⊎ Params
then_bind (inl e) k = inl e
then_bind (inr params) k = k params

-- The loop over the declared parameters.
unfoldable pub bind_params : Floats → List CustomToolParam → Params → Params → BuildError ⊎ Params
unfolding bound_value
bind_params floats [] args params = inr params
bind_params floats (p ∷ ps) args params =
    then_bind (bind_param p.name params (bound_value floats p (lookup p.name args)))
      (bind_params floats ps args)

-- The first argument that is not declared.
abbrev pub first_unknown : List Str → Params → Option Str
first_unknown declared [] = none
first_unknown declared ((name, v) ∷ args) =
    let rest = first_unknown declared args in if contains declared name then rest else some name

abbrev pub build_known : Floats → CustomTool → Params → Option Str → BuildError ⊎ Params
build_known floats def args (some name) = inl (unknown_argument name)
build_known floats def args none = bind_params floats def.params args []

-- BuildParams
unfoldable pub build_params : Floats → CustomTool → Params → BuildError ⊎ Params
unfolding bind_params
build_params floats def args =
    build_known floats def args (first_unknown (param_names def.params) args)

-- The methods of the database service, `tools.EncodeOutput` and the caps on rows and bytes, for results
-- of type R.
pub record CustomService (R : Type 0) : Type 0 where
  pub get_query_type : Str → Params → Str ⊎ QueryType
  pub execute_read : Str → Params → ℤ → ℤ → ExecuteError ⊎ R
  pub execute_write : Str → Params → ℤ → ℤ → ExecuteError ⊎ R
  pub result_to_json : R → Str ⊎ Str
  pub encode_output : Str → Str ⊎ Str
  pub max_rows : ℤ
  pub max_bytes : ℤ

pub data CustomCall : Type 0 where
  classified : Str → Params → CustomCall
  executed_read : Str → Params → ℤ → ℤ → CustomCall
  executed_write : Str → Params → ℤ → ℤ → CustomCall

-- The result of the tool: an error message, by where it comes from, or the encoded rows.
pub data CustomReply : Type 0 where
  not_initialized : CustomReply
  invalid_arguments : Str → CustomReply
  bad_arguments : BuildError → CustomReply
  classification_error : Str → CustomReply
  read_access_violation : CustomReply
  timed_out : CustomReply
  cancelled : CustomReply
  execution_error : Str → CustomReply
  format_error : Str → CustomReply
  encode_error : Str → CustomReply
  rows_reply : Str → Str → CustomReply

abbrev pub CustomRun : Type 0
CustomRun = List CustomCall × CustomReply

abbrev pub encode_reply : Str → Str ⊎ Str → CustomReply
encode_reply json (inl e) = encode_error e
encode_reply json (inr response) = rows_reply response json

abbrev pub format_reply : {R : Type 0} → CustomService R → Str ⊎ Str → CustomReply
format_reply service (inl e) = format_error e
format_reply service (inr json) = encode_reply json (service.encode_output json)

unfoldable pub custom_execute_failed : ExecuteError → CustomReply
custom_execute_failed e =
    if e.has_access_mode_code
    then read_access_violation
    else if e.is_deadline_exceeded
    then timed_out
    else if e.is_canceled
    then cancelled
    else execution_error e.text

abbrev pub execute_reply : {R : Type 0} → CustomService R → ExecuteError ⊎ R → CustomReply
execute_reply service (inl e) = custom_execute_failed e
execute_reply service (inr result) = format_reply service (service.result_to_json result)

abbrev pub run_read :
    {R : Type 0} → CustomService R → CustomTool → Params → Str ⊎ QueryType → CustomRun
run_read service def params (inl e) = (classified def.statement params ∷ [], classification_error e)
run_read service def params (inr (other_type t)) =
    (classified def.statement params ∷ [], read_access_violation)
run_read service def params (inr read_only) = (
  classified def.statement params
      ∷ executed_read def.statement params service.max_rows service.max_bytes
      ∷ [],
  execute_reply service
      (service.execute_read def.statement params service.max_rows service.max_bytes),
)

abbrev pub run_built : {R : Type 0} → CustomService R → CustomTool → BuildError ⊎ Params → CustomRun
run_built service def (inl e) = ([], bad_arguments e)
run_built service def (inr params) =
    if def.access ==s custom_tool_access_read
    then run_read service def params (service.get_query_type def.statement params)
    else (
      executed_write def.statement params service.max_rows service.max_bytes ∷ [],
      execute_reply service
          (service.execute_write def.statement params service.max_rows service.max_bytes),
    )

abbrev pub run_request :
    {R : Type 0} → Floats → CustomService R → CustomTool → Str ⊎ Params → CustomRun
run_request floats service def (inl e) = ([], invalid_arguments e)
run_request floats service def (inr args) = run_built service def (build_params floats def args)

-- Handler, for the database service, if there is one, and the decoded arguments
unfoldable pub handler :
    {R : Type 0} → Floats → Unit {0} ⊎ CustomService R → CustomTool → Str ⊎ Params → CustomRun
unfolding custom_execute_failed
handler floats (inl none_set) def request = ([], not_initialized)
handler floats (inr service) def request = run_request floats service def request
