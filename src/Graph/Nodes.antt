-- ===== src/Graph/Nodes.antt =====
-- graph/node_create.go, node_delete.go, node_update.go: the tools that change nodes.
use neo4j_mcp_canary.Prelude.{Bool, not, ◌&&◌, List, [], ◌∷◌, ◌++◌, if◌then◌else◌, ℤ}
use neo4j_mcp_canary.Text.{Str, codes, concat, join}
use neo4j_mcp_canary.Graphutil.Value.{obj, Params, lookup}
use neo4j_mcp_canary.Graphutil.Error.{
  Result, ok, err, ◌>>=r◌, require, must_select, labels_required, merge_key_missing,
  nothing_to_update, removed_name_empty,
}
use neo4j_mcp_canary.Graphutil.Builder.{Build, ◌>>=◌, ◌>>◌, pure, lift, param}
use neo4j_mcp_canary.Graphutil.Quote.{quote_identifier, is_blank, label_list}
use neo4j_mcp_canary.Graphutil.Sort.{sort_strings}
use neo4j_mcp_canary.Graphutil.Filters.{is_null, value_at}
use neo4j_mcp_canary.Graphutil.NodeRef.{NodeRef, is_empty, has_predicate}
use neo4j_mcp_canary.Graphutil.Projection.{node_map}
use neo4j_mcp_canary.Graphutil.Query.{Query, Draft, write_draft, run_build}
use neo4j_mcp_canary.Graph.Common.{
  node_match, resolve_max_affected, guarded_mutation, unless_dry_run, check_property_keys,
  fields_of,
}

pub record CreateNodeInput : Type 0 where
  pub labels : List Str
  pub properties : Params
  pub merge_on : List Str

-- One round over `mergeOn`: a missing or null property is refused.
unfoldable pub merge_part : Params → Str → Build Str
merge_part props k =
    if is_null (value_at (lookup k props))
    then lift (err (merge_key_missing k))
    else (param (value_at (lookup k props)) >>= λ p.
        pure (concat (quote_identifier k ∷ codes ": " ∷ p ∷ [])))

-- The loop over the sorted keys of `mergeOn`.
unfoldable pub merge_parts : Params → List Str → Build (List Str)
merge_parts props [] = pure []
merge_parts props (k ∷ ks) =
    merge_part props k >>= λ p. merge_parts props ks >>= λ ps. pure (p ∷ ps)

-- `stmt`
unfoldable pub create_statement : Str → Params → List Str → Build Str
create_statement labels props [] = param (obj (fields_of props)) >>= λ p.
    pure (concat (codes "CREATE (n" ∷ labels ∷ codes " " ∷ p ∷ codes ")" ∷ []))
create_statement labels props (k ∷ ks) = merge_parts props (sort_strings (k ∷ ks)) >>= λ parts.
    param (obj (fields_of props)) >>= λ p. pure (
      concat (
        codes "MERGE (n"
        ∷ labels
        ∷ codes " {"
        ∷ join parts (codes ", ")
        ∷ codes "})\nSET n += "
        ∷ p
        ∷ []))

unfoldable pub create_node_body : CreateNodeInput → Build Draft
create_node_body input =
    lift (require (not (is_empty input.labels)) labels_required)
    >> (lift (label_list input.labels) >>= λ labels.
        lift (check_property_keys (codes "properties") input.properties)
        >> (create_statement labels input.properties input.merge_on >>= λ stmt. pure (
            write_draft
              (concat (stmt ∷ codes "\nRETURN " ∷ node_map (codes "n") [] ∷ codes " AS node" ∷ []))
              (codes
                "Property values must be strings, numbers, booleans or arrays of those; and a uniqueness constraint may already hold a node with these values (use mergeOn to update it instead)"))))

-- buildCreateNode
unfoldable pub build_create_node : CreateNodeInput → Result Query
unfolding create_node_body create_statement
build_create_node input = run_build (create_node_body input)

pub record DeleteNodeInput : Type 0 where
  pub ref : NodeRef
  pub detach : Bool
  pub max_affected : ℤ
  pub dry_run : Bool

unfoldable pub delete_node_body : DeleteNodeInput → Build Draft
delete_node_body input =
    lift (require (has_predicate input.ref) (must_select (codes "delete-node")))
    >> (lift (resolve_max_affected input.max_affected) >>= λ max_affected.
        node_match input.ref (codes "n") >>= λ match.
        unless_dry_run input.dry_run match (codes "n") (
          guarded_mutation match (codes "n")
            (if input.detach then codes "DETACH DELETE n" else codes "DELETE n") (codes "count(*)")
            (codes "deleted") (codes "node") max_affected
          >>= λ text. pure (
              write_draft text (
                codes
                  "If the node still has relationships, retry with detach=true to delete them too, or remove them first with delete-relationship"))))

-- buildDeleteNode
unfoldable pub build_delete_node : DeleteNodeInput → Result Query
unfolding delete_node_body
build_delete_node input = run_build (delete_node_body input)

pub record UpdateNodeInput : Type 0 where
  pub ref : NodeRef
  pub set : Params
  pub remove : List Str
  pub add_labels : List Str
  pub remove_labels : List Str
  pub max_affected : ℤ
  pub dry_run : Bool

-- The step that sets properties: "SET <v> += $p".
unfoldable pub set_step : Str → Params → Build (List Str)
set_step v [] = pure []
set_step v (x ∷ m) = param (obj (fields_of (x ∷ m))) >>= λ p.
    pure (concat (codes "SET " ∷ v ∷ codes " += " ∷ p ∷ []) ∷ [])

-- The loop over the properties to remove.
unfoldable pub removed_properties : Str → List Str → Result (List Str)
removed_properties v [] = ok []
removed_properties v (k ∷ ks) =
    let rest = removed_properties v ks >>=r λ refs.
    ok (concat (v ∷ codes "." ∷ quote_identifier k ∷ []) ∷ refs) in
    if is_blank k then err removed_name_empty else rest

-- A label list behind a variable, if there are labels.
unfoldable pub labels_of : Str → List Str → Result (List Str)
labels_of lead [] = ok []
labels_of lead (l ∷ ls) = label_list (l ∷ ls) >>=r λ t. ok ((lead ++ t) ∷ [])

-- "REMOVE a, b", if there is something to remove
abbrev pub remove_step : List Str → List Str
remove_step [] = []
remove_step (r ∷ rs) = concat (codes "REMOVE " ∷ join (r ∷ rs) (codes ", ") ∷ []) ∷ []

-- The part of `buildUpdateNode` behind the dry run.
unfoldable pub update_node_steps : UpdateNodeInput → Build Str
update_node_steps input = set_step (codes "n") input.set >>= λ sets.
    lift (removed_properties (codes "n") input.remove) >>= λ removals.
    lift (labels_of (codes "n") input.remove_labels) >>= λ gone.
    lift (labels_of (codes "SET n") input.add_labels) >>= λ added.
    pure (join ((sets ++ remove_step (removals ++ gone)) ++ added) (codes "\n  "))

unfoldable pub update_node_body : UpdateNodeInput → Build Draft
update_node_body input =
    lift (require (has_predicate input.ref) (must_select (codes "update-node")))
    >> (lift (
          require
            (not (
              is_empty input.set
              && is_empty input.remove
              && is_empty input.add_labels
              && is_empty input.remove_labels))
            nothing_to_update)
        >> (lift (check_property_keys (codes "set") input.set)
            >> (lift (resolve_max_affected input.max_affected) >>= λ max_affected.
                node_match input.ref (codes "n") >>= λ match.
                unless_dry_run input.dry_run match (codes "n") (
                  update_node_steps input >>= λ steps.
                  guarded_mutation match (codes "n") steps
                    (concat (codes "collect(" ∷ node_map (codes "n") [] ∷ codes ")" ∷ []))
                    (codes "updated") (codes "node") max_affected
                  >>= λ text. pure (
                      write_draft text (
                        codes
                          "Property values must be strings, numbers, booleans or arrays of those; a uniqueness constraint may also reject the new value"))))))

-- buildUpdateNode
unfoldable pub build_update_node : UpdateNodeInput → Result Query
unfolding update_node_body update_node_steps
build_update_node input = run_build (update_node_body input)
