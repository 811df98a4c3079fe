-- ===== src/Examples/Custom.antt =====
-- The theorems on custom tools and on the tools for statements at concrete inputs.
use neo4j_mcp_canary.Prelude.{
  ℕ, true, [], ◌∷◌, ◌⊎◌, inr, some, ◌≡◌, refl, pos, Memᴰ, is_some, ◌↔◌, none,
}
use neo4j_mcp_canary.Text.{Str, codes, ◌==s◌, contains, trim_space}
use neo4j_mcp_canary.Graphutil.Value.{Value, null, int, Params, assign, lookup}
use neo4j_mcp_canary.Config.Scan.{
  cypher_code, matches_tool_name, matches_category, matches_param_name,
}
use neo4j_mcp_canary.Config.Scan.Blanks.{Blanked, cypher_code-Blanked}
use neo4j_mcp_canary.Config.Scan.Plain.{Plain, cypher_code-Plain}
use neo4j_mcp_canary.Config.CustomTools.{
  CustomTool, CustomToolParam, Floats, validate_custom_tool, statement_references, param_names,
  coerce_custom_param,
}
use neo4j_mcp_canary.Config.CustomTools.Valid.{Distinct, validate_custom_tool_lem}
use neo4j_mcp_canary.Cypher.ReadCypher.{read_only}
use neo4j_mcp_canary.Cypher.SchemaDdl.{CreateConstraintInput, build_constraint}
use neo4j_mcp_canary.Cypher.SchemaDdl.Accepts.{
  NamesEntity, FitsProperties, Built, build_constraint_lem,
}
use neo4j_mcp_canary.Cypher.SchemaDrop.{DropService}
use neo4j_mcp_canary.Cypher.WriteCypher.{WriteDependencies, WriteCypherInput, handle_write_cypher}
use neo4j_mcp_canary.Cypher.WriteCypher.Gate.{WriteOutcome, write_cypher_gate}
use neo4j_mcp_canary.Tools.Custom.{build_params, CustomService, handler}
use neo4j_mcp_canary.Tools.Custom.Bound.{build_params_names}
use neo4j_mcp_canary.Tools.Custom.Typed.{Absent, Chosen, build_params_typed}
use neo4j_mcp_canary.Tools.Custom.Access.{Effects, handler-Effects}

abbrev quoting_statement : Str
quoting_statement = codes "RETURN $id, '$no' // $none"

cypher_code-Blanked_example : Blanked quoting_statement (cypher_code quoting_statement)
cypher_code-Blanked_example = cypher_code-Blanked quoting_statement

cypher_code-Plain_example :
    Plain (cypher_code quoting_statement)
    × (cypher_code (cypher_code quoting_statement) ≡ cypher_code quoting_statement)
    × (Plain quoting_statement → cypher_code quoting_statement ≡ quoting_statement)
cypher_code-Plain_example = cypher_code-Plain quoting_statement

-- Conversions for a program without floating-point numbers.
abbrev no_floats : Floats
no_floats = record { of_int = λ n. 0; to_int = λ f. pos 0; equal = λ f g. true }

abbrev id_param : CustomToolParam
id_param = record {
  name = codes "id";
  param_type = codes "integer";
  description = codes "d";
  required = true;
  choices = [];
  default_value = null;
}

abbrev find_tool : CustomTool
find_tool = record {
  name = codes "find";
  description = codes "d";
  category = codes "crm";
  access = codes "read";
  statement = codes "RETURN $id";
  params = id_param ∷ [];
}

abbrev find_arguments : Params
find_arguments = (codes "id", int (pos 7)) ∷ []

find_tool-Valid : validate_custom_tool no_floats find_tool ≡ []
unfolding validate_custom_tool contains ◌==s◌ trim_space matches_tool_name matches_category
    matches_param_name
find_tool-Valid = refl

find_arguments_accepted : build_params no_floats find_tool find_arguments ≡ inr find_arguments
unfolding build_params contains ◌==s◌ lookup assign coerce_custom_param
find_arguments_accepted = refl

validate_custom_tool_lem_example :
    Distinct (param_names find_tool.params)
    × ((n : Str)
        → contains (statement_references find_tool.statement) n
          ≡ contains (param_names find_tool.params) n)
validate_custom_tool_lem_example = validate_custom_tool_lem no_floats find_tool find_tool-Valid

build_params_names_example :
    is_some (lookup (codes "id") find_arguments)
    ≡ contains (statement_references find_tool.statement) (codes "id")
build_params_names_example =
    build_params_names no_floats find_tool find_arguments find_arguments find_tool-Valid
      find_arguments_accepted (codes "id")

build_params_typed_example :
    (v : Value) × (lookup (codes "id") find_arguments ≡ some v)
    × (Absent no_floats id_param v ⊎ Chosen no_floats id_param v)
build_params_typed_example =
    build_params_typed no_floats find_tool find_arguments find_arguments find_tool-Valid
      find_arguments_accepted id_param (Memᴰ.head refl)

-- A database that takes every statement for a read and returns 2 for it.
abbrev small_service : CustomService ℕ
small_service = record {
  get_query_type = λ q p. inr read_only;
  execute_read = λ q p rows bytes. inr 2;
  execute_write = λ q p rows bytes. inr 2;
  result_to_json = λ n. inr (codes "[]");
  encode_output = λ s. inr s;
  max_rows = pos 100;
  max_bytes = pos 900;
}

handler-Effects_example :
    Effects small_service find_tool
      (build_params no_floats find_tool find_arguments)
      (handler no_floats (inr small_service) find_tool (inr find_arguments)).0
handler-Effects_example = handler-Effects no_floats small_service find_tool find_arguments

-- A database that answers each statement with its text.
abbrev echo_writes : WriteDependencies Str
echo_writes = record {
  execute_write = λ query params rows bytes. inr query;
  result_to_json = λ result. inr result;
  encode_output = λ json. inr json;
  max_rows = pos 100;
  max_bytes = pos 900;
}

abbrev write_request : Str ⊎ WriteCypherInput
write_request = inr (record { query = codes "CREATE (n)"; params = [] })

write_cypher_gate_example :
    WriteOutcome echo_writes write_request (handle_write_cypher (inr echo_writes) write_request)
write_cypher_gate_example = write_cypher_gate echo_writes write_request

abbrev unique_person : CreateConstraintInput
unique_person = record {
  name = [];
  entity_type = codes "NODE";
  label = codes "Person";
  relationship_type = [];
  properties = codes "id" ∷ [];
  constraint_type = codes "UNIQUENESS";
}

build_constraint_lem_example :
    (((r : Str × Str) × (build_constraint (codes "mcp_1") unique_person ≡ inr r)) ↔ (
      NamesEntity (codes "NODE") (codes "Person") []
      × FitsProperties (codes "UNIQUENESS") (codes "id" ∷ [])))
    × ((r : Str × Str)
        → build_constraint (codes "mcp_1") unique_person ≡ inr r
        → Built (codes "mcp_1") unique_person r)
build_constraint_lem_example = build_constraint_lem (codes "mcp_1") unique_person

-- A database that finds every name.
abbrev finding : DropService
finding = record {
  execute_read = λ query params. inr (params ∷ []);
  execute_write = λ statement. none;
  marshal = λ name existed. inr name;
  encode_output = λ json. inr json;
}
