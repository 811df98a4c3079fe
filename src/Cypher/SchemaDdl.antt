-- ===== src/Cypher/SchemaDdl.antt =====
-- cypher/schema_ddl.go, and the part of cypher/create_constraint_handler.go that builds the statement.
-- An error carries what its message is formatted from; the generated name is a parameter.
pub mod Accepts
use neo4j_mcp_canary.Prelude.{
  ℕ, Bool, true, false, ◌==◌, not, ◌||◌, List, [], ◌∷◌, ◌++◌, ◌⊎◌, inl, inr, Option, none, some,
  if◌then◌else◌, length,
}
use neo4j_mcp_canary.Text.{Str, codes, ◌==s◌, join}
use neo4j_mcp_canary.Graphutil.Quote.{quote_identifier}

pub data SchemaError : Type 0 where
  label_required : SchemaError
  relationship_type_unexpected : SchemaError
  relationship_type_required : SchemaError
  label_unexpected : SchemaError
  unknown_entity_type : Str → SchemaError
  one_property_required : ℕ → SchemaError
  property_required : Str → SchemaError
  unknown_constraint_type : Str → SchemaError

-- CreateConstraintInput
pub record CreateConstraintInput : Type 0 where
  pub name : Str
  pub entity_type : Str
  pub label : Str
  pub relationship_type : Str
  pub properties : List Str
  pub constraint_type : Str

-- entityPattern: the pattern and its variable
unfoldable pub entity_pattern : Str → Str → Str → SchemaError ⊎ (Str × Str)
entity_pattern entity_type label relationship_type =
    if entity_type ==s codes "NODE"
    then (if label ==s []
        then inl label_required
        else if not (relationship_type ==s [])
        then inl relationship_type_unexpected
        else inr (codes "(n:" ++ (quote_identifier label ++ codes ")"), codes "n"))
    else if entity_type ==s codes "RELATIONSHIP"
    then (if relationship_type ==s []
        then inl relationship_type_required
        else if not (label ==s [])
        then inl label_unexpected
        else inr
            (codes "()-[r:" ++ (quote_identifier relationship_type ++ codes "]-()"), codes "r"))
    else inl (unknown_entity_type entity_type)

abbrev pub property_refs : Str → List Str → List Str
property_refs var_name [] = []
property_refs var_name (p ∷ ps) =
    (var_name ++ (codes "." ++ quote_identifier p)) ∷ property_refs var_name ps

-- parenList
unfoldable pub paren_list : Str → List Str → Str
paren_list var_name properties =
    codes "(" ++ (join (property_refs var_name properties) (codes ", ") ++ codes ")")

abbrev pub has_no_property : List Str → Bool
has_no_property [] = true
has_no_property (p ∷ ps) = false

-- The switch on the type of the constraint that checks the number of properties.
unfoldable pub check_properties : Str → List Str → Option SchemaError
check_properties constraint_type properties =
    if constraint_type ==s codes "PROPERTY_EXISTENCE"
    then (if not (length properties == 1)
        then some (one_property_required (length properties))
        else none)
    else if constraint_type ==s codes "UNIQUENESS" || constraint_type ==s codes "KEY"
    then (if has_no_property properties then some (property_required constraint_type) else none)
    else some (unknown_constraint_type constraint_type)

abbrev pub first_property : List Str → Str
first_property [] = []
first_property (p ∷ ps) = p

-- What a constraint requires, behind the word REQUIRE.
unfoldable pub requirement : CreateConstraintInput → Str → Str
unfolding paren_list
requirement input var_name =
    if input.constraint_type ==s codes "UNIQUENESS"
    then paren_list var_name input.properties ++ codes " IS UNIQUE"
    else if input.constraint_type ==s codes "KEY"
    then paren_list var_name input.properties
      ++ (codes " "
          ++ (if input.entity_type ==s codes "RELATIONSHIP"
              then codes "IS RELATIONSHIP KEY"
              else codes "IS NODE KEY"))
    else var_name
      ++ (codes "." ++ (quote_identifier (first_property input.properties) ++ codes " IS NOT NULL"))

-- The statement for a name and a pattern.
unfoldable pub constraint_statement : CreateConstraintInput → Str → Str × Str → Str
unfolding requirement
constraint_statement input name (pattern, var_name) =
    codes "CREATE CONSTRAINT "
    ++ (quote_identifier name
        ++ (codes " IF NOT EXISTS FOR "
            ++ (pattern ++ (codes " REQUIRE " ++ requirement input var_name))))

-- The name that is given, or else the generated one.
abbrev pub chosen_name : Str → Str → Str
chosen_name generated name = if name ==s [] then generated else name

abbrev pub after_properties :
    Str → CreateConstraintInput → Str × Str → Option SchemaError → SchemaError ⊎ (Str × Str)
after_properties generated input pattern (some e) = inl e
after_properties generated input pattern none =
    let name = chosen_name generated input.name in
    inr (name, constraint_statement input name pattern)

abbrev pub after_pattern :
    Str → CreateConstraintInput → SchemaError ⊎ (Str × Str) → SchemaError ⊎ (Str × Str)
after_pattern generated input (inl e) = inl e
after_pattern generated input (inr pattern) =
    after_properties generated input pattern
      (check_properties input.constraint_type input.properties)

-- The part of handleCreateConstraint before its calls: the name and the statement
unfoldable pub build_constraint : Str → CreateConstraintInput → SchemaError ⊎ (Str × Str)
unfolding entity_pattern check_properties constraint_statement
build_constraint generated input =
    after_pattern generated input
      (entity_pattern input.entity_type input.label input.relationship_type)
