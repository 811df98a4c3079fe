-- ===== src/Graph/Relationships.antt =====
-- graph/rel_create.go, rel_delete.go, rel_update.go: the tools that change relationships.
use neo4j_mcp_canary.Prelude.{Bool, not, ◌&&◌, List, [], ◌∷◌, ◌++◌, if◌then◌else◌, ℤ}
use neo4j_mcp_canary.Text.{Str, codes, concat, join, ◌==s◌}
use neo4j_mcp_canary.Graphutil.Value.{obj, str, Params}
use neo4j_mcp_canary.Graphutil.Error.{
  Result, require, context, must_select, type_required, nothing_to_update,
}
use neo4j_mcp_canary.Graphutil.Builder.{Build, ◌>>=◌, ◌>>◌, pure, lift, param, wrapping}
use neo4j_mcp_canary.Graphutil.Quote.{quote_identifier}
use neo4j_mcp_canary.Graphutil.NodeRef.{NodeRef, is_empty, has_predicate}
use neo4j_mcp_canary.Graphutil.Projection.{rel_map}
use neo4j_mcp_canary.Graphutil.Query.{Query, Draft, write_draft, run_build}
use neo4j_mcp_canary.Graph.Common.{
  node_match, resolve_max_affected, guarded_mutation, unless_dry_run, check_property_keys,
  fields_of,
}
use neo4j_mcp_canary.Graph.RelRef.{RelRef, rel_has_predicate, rel_match}
use neo4j_mcp_canary.Graph.Nodes.{set_step, removed_properties, remove_step}

pub record CreateRelationshipInput : Type 0 where
  pub from : NodeRef
  pub to : NodeRef
  pub type : Str
  pub properties : Params
  pub allow_duplicate : Bool

-- `write`: the MERGE statement allocates its parameter before `allowDuplicate` is looked at, so
-- with that option the properties are bound twice.
unfoldable pub create_write : Str → Params → Bool → Build Str
create_write typ props allow_duplicate = param (obj (fields_of props)) >>= λ merge_p.
    if allow_duplicate
    then (param (obj (fields_of props)) >>= λ p.
        pure (concat (codes "CREATE (src)-[r:" ∷ typ ∷ codes " " ∷ p ∷ codes "]->(dst)" ∷ [])))
    else pure
        (concat (codes "MERGE (src)-[r:" ∷ typ ∷ codes "]->(dst)\n    SET r += " ∷ merge_p ∷ []))

abbrev pub no_relationship_message : Str
no_relationship_message =
    codes
      "No relationship was created: `from` and `to` must each select exactly one node, but fromMatched / toMatched show how many they selected. Narrow the one that is not 1 (use id for an exact node); use find-nodes to look up ids."

unfoldable pub create_relationship_text : Str → Str → Str → Str → Str
create_relationship_text from_match to_match write message = concat (
    from_match
    ∷ codes "\nWITH collect(src) AS sources\n"
    ∷ to_match
    ∷ codes
        "\nWITH sources, collect(dst) AS targets\nOPTIONAL CALL (sources, targets) {\n  WITH sources[0] AS src, targets[0] AS dst\n  WHERE size(sources) = 1 AND size(targets) = 1\n  "
    ∷ write
    ∷ codes "\n  RETURN "
    ∷ rel_map (codes "r") []
    ∷ codes
        " AS relationship\n}\nRETURN size(sources) AS fromMatched, size(targets) AS toMatched, relationship, CASE WHEN relationship IS NULL THEN "
    ∷ message
    ∷ codes " END AS message"
    ∷ [])

unfoldable pub create_relationship_body : CreateRelationshipInput → Build Draft
create_relationship_body input =
    lift (require (not (input.type ==s [])) type_required)
    >> (lift (require (has_predicate input.from) (must_select (codes "from")))
        >> (lift (require (has_predicate input.to) (must_select (codes "to")))
            >> (lift (check_property_keys (codes "properties") input.properties)
                >> (wrapping (context (codes "from")) (node_match input.from (codes "src"))
                    >>= λ from_match.
                        wrapping (context (codes "to")) (node_match input.to (codes "dst"))
                        >>= λ to_match.
                            create_write (quote_identifier input.type) input.properties
                              input.allow_duplicate
                            >>= λ write. param (str no_relationship_message) >>= λ message. pure (
                                write_draft
                                  (create_relationship_text from_match to_match write message)
                                  (codes
                                    "Property values must be strings, numbers, booleans or arrays of those"))))))

-- buildCreateRelationship
unfoldable pub build_create_relationship : CreateRelationshipInput → Result Query
unfolding create_relationship_body create_write
build_create_relationship input = run_build (create_relationship_body input)

pub record DeleteRelationshipInput : Type 0 where
  pub ref : RelRef
  pub max_affected : ℤ
  pub dry_run : Bool

unfoldable pub delete_relationship_body : DeleteRelationshipInput → Build Draft
delete_relationship_body input =
    lift (require (rel_has_predicate input.ref) (must_select (codes "delete-relationship")))
    >> (lift (resolve_max_affected input.max_affected) >>= λ max_affected.
        rel_match input.ref >>= λ match. unless_dry_run input.dry_run match (codes "r") (
          guarded_mutation match (codes "r") (codes "DELETE r") (codes "count(*)") (codes "deleted")
            (codes "relationship") max_affected
          >>= λ text. pure (write_draft text [])))

-- buildDeleteRelationship
unfoldable pub build_delete_relationship : DeleteRelationshipInput → Result Query
unfolding delete_relationship_body
build_delete_relationship input = run_build (delete_relationship_body input)

pub record UpdateRelationshipInput : Type 0 where
  pub ref : RelRef
  pub set : Params
  pub remove : List Str
  pub max_affected : ℤ
  pub dry_run : Bool

-- The part of `buildUpdateRelationship` behind the dry run.
unfoldable pub update_relationship_steps : UpdateRelationshipInput → Build Str
update_relationship_steps input = set_step (codes "r") input.set >>= λ sets.
    lift (removed_properties (codes "r") input.remove) >>= λ refs.
    pure (join (sets ++ remove_step refs) (codes "\n  "))

unfoldable pub update_relationship_body : UpdateRelationshipInput → Build Draft
update_relationship_body input =
    lift (require (rel_has_predicate input.ref) (must_select (codes "update-relationship")))
    >> (lift (require (not (is_empty input.set && is_empty input.remove)) nothing_to_update)
        >> (lift (check_property_keys (codes "set") input.set)
            >> (lift (resolve_max_affected input.max_affected) >>= λ max_affected.
                rel_match input.ref >>= λ match. unless_dry_run input.dry_run match (codes "r") (
                  update_relationship_steps input >>= λ steps.
                  guarded_mutation match (codes "r") steps
                    (concat (codes "collect(" ∷ rel_map (codes "r") [] ∷ codes ")" ∷ []))
                    (codes "updated") (codes "relationship") max_affected
                  >>= λ text. pure (
                      write_draft text (
                        codes
                          "Property values must be strings, numbers, booleans or arrays of those"))))))

-- buildUpdateRelationship
unfoldable pub build_update_relationship : UpdateRelationshipInput → Result Query
unfolding update_relationship_body update_relationship_steps
build_update_relationship input = run_build (update_relationship_body input)
