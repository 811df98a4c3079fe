-- ===== src/Config/CustomTools.antt =====
-- config/custom_tools.go: the tools that an operator defines in the config file, their validation, and
-- the coercion of the values of their parameters. What Go does with float64 values is a parameter. An
-- error carries what its message is formatted from.
pub mod Valid
use neo4j_mcp_canary.Graphutil.Filters.{is_null}
use neo4j_mcp_canary.Prelude.{
  ℕ, suc, Bool, true, false, ◌&&◌, ◌||◌, not, List, [], ◌∷◌, ◌++◌, Option, none, some,
  if◌then◌else◌, ltb, length, ℤ, is_some,
}
use neo4j_mcp_canary.Text.{Str, codes, ◌==s◌, contains, trim_space}
use neo4j_mcp_canary.Graphutil.Value.{Value, null, bool, int, float, str}
use neo4j_mcp_canary.Config.Scan.{
  cypher_code, matches_tool_name, matches_category, matches_param_name, references, outside,
}

-- CustomToolParam; an absent default is null
pub record CustomToolParam : Type 0 where
  pub name : Str
  pub param_type : Str
  pub description : Str
  pub required : Bool
  pub choices : List Value
  pub default_value : Value

-- CustomTool
pub record CustomTool : Type 0 where
  pub name : Str
  pub description : Str
  pub category : Str
  pub access : Str
  pub statement : Str
  pub params : List CustomToolParam

-- CustomToolAccessRead
abbrev pub custom_tool_access_read : Str
custom_tool_access_read = codes "read"

abbrev pub custom_tool_access_read_write : Str
custom_tool_access_read_write = codes "readwrite"

-- The conversions of Go between int64 and float64, and its equality on float64.
pub record Floats : Type 0 where
  pub of_int : ℤ → ℕ
  pub to_int : ℕ → ℤ
  pub equal : ℕ → ℕ → Bool

abbrev pub coerce_string : Value → Option Value
coerce_string (str s) = some (str s)
coerce_string v = none

abbrev pub coerce_boolean : Value → Option Value
coerce_boolean (bool b) = some (bool b)
coerce_boolean v = none

abbrev pub coerce_integer : Floats → Value → Option Value
coerce_integer floats (int n) = some (int n)
coerce_integer floats (float f) =
    if floats.equal f (floats.of_int (floats.to_int f)) then some (int (floats.to_int f)) else none
coerce_integer floats v = none

abbrev pub coerce_number : Floats → Value → Option Value
coerce_number floats (int n) = some (float (floats.of_int n))
coerce_number floats (float f) = some (float f)
coerce_number floats v = none

-- CoerceCustomParam: none for its error; an int and an int64 are the one constructor
unfoldable pub coerce_custom_param : Floats → Str → Value → Option Value
coerce_custom_param floats param_type v =
    if param_type ==s codes "string"
    then coerce_string v
    else if param_type ==s codes "boolean"
    then coerce_boolean v
    else if param_type ==s codes "integer"
    then coerce_integer floats v
    else if param_type ==s codes "number"
    then coerce_number floats v
    else none

-- validCustomParamTypes
abbrev pub valid_custom_param_types : List Str
valid_custom_param_types = codes "string" ∷ codes "integer" ∷ codes "number" ∷ codes "boolean" ∷ []

-- An error of validateCustomTool.
pub data ToolProblem : Type 0 where
  bad_name : ToolProblem
  no_description : ToolProblem
  bad_category : ToolProblem
  bad_access : Str → ToolProblem
  no_statement : ToolProblem
  bad_param_name : ℕ → Str → ToolProblem
  duplicate_param : ℕ → Str → ToolProblem
  bad_param_type : ℕ → Str → Str → ToolProblem
  no_param_description : ℕ → Str → ToolProblem
  bad_choice : ℕ → Str → Value → ToolProblem
  bad_default : ℕ → Str → ToolProblem
  undeclared : Str → ToolProblem
  unreferenced : Str → ToolProblem

abbrev pub problem_if : Bool → ToolProblem → List ToolProblem
problem_if b p = if b then p ∷ [] else []

abbrev pub check_choices : Floats → ℕ → CustomToolParam → List Value → List ToolProblem
check_choices floats j p [] = []
check_choices floats j p (e ∷ es) =
    problem_if (not (is_some (coerce_custom_param floats p.param_type e))) (bad_choice j p.name e)
    ++ check_choices floats j p es

-- What is checked of a parameter whose type is a known one.
unfoldable pub check_typed : Floats → ℕ → CustomToolParam → List ToolProblem
check_typed floats j p =
    problem_if (trim_space p.description ==s []) (no_param_description j p.name)
    ++ check_choices floats j p p.choices
    ++ problem_if
        (not (is_null p.default_value)
          && not (is_some (coerce_custom_param floats p.param_type p.default_value)))
        (bad_default j p.name)

-- A round of the loop over the parameters, with the names declared before.
unfoldable pub check_param : Floats → ℕ → List Str → CustomToolParam → List ToolProblem
unfolding check_typed
check_param floats j declared p =
    problem_if (not (matches_param_name p.name)) (bad_param_name j p.name)
    ++ problem_if (contains declared p.name) (duplicate_param j p.name)
    ++ (if not (contains valid_custom_param_types p.param_type)
        then bad_param_type j p.name p.param_type ∷ []
        else check_typed floats j p)

unfoldable pub check_params : Floats → ℕ → List Str → List CustomToolParam → List ToolProblem
unfolding check_param
check_params floats j declared [] = []
check_params floats j declared (p ∷ ps) =
    check_param floats j declared p ++ check_params floats (suc j) (p.name ∷ declared) ps

abbrev pub param_names : List CustomToolParam → List Str
param_names [] = []
param_names (p ∷ ps) = p.name ∷ param_names ps

-- The references that are not declared, each once.
unfoldable pub check_references : List Str → List Str → List Str → List ToolProblem
check_references declared seen [] = []
check_references declared seen (m ∷ ms) =
    let again = contains seen m in
    let rest = check_references declared (if again then seen else m ∷ seen) ms in
    if again then rest else problem_if (not (contains declared m)) (undeclared m) ++ rest

-- The declarations that are not referenced.
unfoldable pub check_declared : List Str → List Str → List ToolProblem
check_declared referenced [] = []
check_declared referenced (n ∷ ns) =
    problem_if (not (contains referenced n)) (unreferenced n) ++ check_declared referenced ns

-- The names that a statement's code refers to.
unfoldable pub statement_references : Str → List Str
unfolding references cypher_code
statement_references statement = references outside (cypher_code statement)

-- The checks on a tool before its parameters; a name that the pattern admits has a byte a character.
unfoldable pub check_head : CustomTool → List ToolProblem
check_head t =
    problem_if (ltb 64 (length t.name) || not (matches_tool_name t.name)) bad_name
    ++ problem_if (trim_space t.description ==s []) no_description
    ++ problem_if (not (matches_category t.category)) bad_category
    ++ problem_if
        (not (t.access ==s custom_tool_access_read)
          && not (t.access ==s custom_tool_access_read_write))
        (bad_access t.access)
    ++ problem_if (trim_space (cypher_code t.statement) ==s []) no_statement

-- validateCustomTool
unfoldable pub validate_custom_tool : Floats → CustomTool → List ToolProblem
unfolding check_head check_params check_references check_declared statement_references
validate_custom_tool floats t =
    let names = param_names t.params in
    let refs = statement_references t.statement in
    check_head t
    ++ check_params floats 0 [] t.params
    ++ check_references names [] refs
    ++ check_declared refs names

-- An error of ValidateCustomTools, with the index of its tool.
pub data ConfigProblem : Type 0 where
  tool_problem : ℕ → Str → ToolProblem → ConfigProblem
  duplicate_tool : ℕ → Str → ConfigProblem

abbrev pub located : ℕ → Str → List ToolProblem → List ConfigProblem
located i name [] = []
located i name (e ∷ es) = tool_problem i name e ∷ located i name es

-- The loop of ValidateCustomTools, with the names seen before.
unfoldable pub check_tools : Floats → ℕ → List Str → List CustomTool → List ConfigProblem
unfolding validate_custom_tool
check_tools floats i seen [] = []
check_tools floats i seen (t ∷ ts) =
    located i t.name (validate_custom_tool floats t)
    ++ (if contains seen t.name then duplicate_tool i t.name ∷ [] else [])
    ++ check_tools floats (suc i) (t.name ∷ seen) ts

-- ValidateCustomTools
unfoldable pub validate_custom_tools : Floats → List CustomTool → List ConfigProblem
unfolding check_tools
validate_custom_tools floats tools = check_tools floats 0 [] tools
