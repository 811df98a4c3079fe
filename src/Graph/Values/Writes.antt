-- ===== src/Graph/Values/Writes.antt =====
-- The tools that change the graph on inputs with erased property values.
use neo4j_mcp_canary.Prelude.{List, [], ◌∷◌, ◌≡◌, refl, ℤ, Bool, true, false}
use neo4j_mcp_canary.Text.{Str, codes}
use neo4j_mcp_canary.Graphutil.Value.{Params, lookup}
use neo4j_mcp_canary.Graphutil.Filters.{value_at}
use neo4j_mcp_canary.Graphutil.Query.{statement, Draft}
use neo4j_mcp_canary.Graphutil.Builder.{Build}
use neo4j_mcp_canary.Graphutil.Erase.{erase_params, erase_ref}
use neo4j_mcp_canary.Graphutil.Erase.Sim.{Sim, Sim-pure, statement-run_build}
use neo4j_mcp_canary.Graphutil.Erase.Refs.{
  is_null-erase, lookup-erase, has_predicate-erase, is_empty-erase_params, ref_rules,
}
use neo4j_mcp_canary.Graph.Common.{guarded_mutation, unless_dry_run, check_property_keys}
use neo4j_mcp_canary.Graph.Nodes.{
  CreateNodeInput, merge_part, merge_parts, create_statement, build_create_node, DeleteNodeInput,
  build_delete_node, UpdateNodeInput, set_step, update_node_steps, build_update_node,
}
use neo4j_mcp_canary.Graph.Relationships.{
  CreateRelationshipInput, create_write, build_create_relationship, DeleteRelationshipInput,
  build_delete_relationship, UpdateRelationshipInput, update_relationship_steps,
  build_update_relationship,
}
use neo4j_mcp_canary.Graph.Values.{
  erase_rel, Sim-node_match, Sim-rel_match, rel_has_predicate-erase,
}

check_property_keys-erase :
    (name : Str) (m : Params)
    → check_property_keys name (erase_params m) ≡ check_property_keys name m
unfolding check_property_keys
check_property_keys-erase name [] = refl
check_property_keys-erase name ((k, v) ∷ m) = rw (check_property_keys-erase name m)

Sim-merge_part : (m : Params) (k : Str) → Sim (merge_part (erase_params m) k) (merge_part m k)
unfolding merge_part
Sim-merge_part m k = rw (lookup-erase k m, is_null-erase (value_at (lookup k m))) (search ref_rules)

Sim-merge_parts :
    (m : Params) (ks : List Str) → Sim (merge_parts (erase_params m) ks) (merge_parts m ks)
unfolding merge_parts
Sim-merge_parts m [] = search ref_rules
Sim-merge_parts m (k ∷ ks) = search (ref_rules, Sim-merge_part m k, Sim-merge_parts m ks)

Sim-create_statement :
    (labels : Str) (m : Params) (ks : List Str)
    → Sim (create_statement labels (erase_params m) ks) (create_statement labels m ks)
unfolding create_statement
Sim-create_statement labels m [] = search ref_rules
Sim-create_statement labels m (k ∷ ks) = search (ref_rules, Sim-merge_parts)

abbrev pub erase_create_node : CreateNodeInput → CreateNodeInput
erase_create_node input = record input { properties = erase_params input.properties }

-- create-node
pub create_node_values :
    (input : CreateNodeInput)
    → statement (build_create_node (erase_create_node input)) ≡ statement (build_create_node input)
unfolding build_create_node
create_node_values input = statement-run_build _ _ (
    rw (check_property_keys-erase (codes "properties") input.properties)
      (search (ref_rules, Sim-create_statement) depth 10))

Sim-guarded_mutation :
    (m v mutation expr alias entity : Str) (n : ℤ)
    → Sim
        (guarded_mutation m v mutation expr alias entity n)
        (guarded_mutation m v mutation expr alias entity n)
unfolding guarded_mutation
Sim-guarded_mutation m v mutation expr alias entity n = search ref_rules depth 8

Sim-unless_dry_run :
    (t : Bool) (match v : Str) (m n : Build Draft)
    → Sim m n
    → Sim (unless_dry_run t match v m) (unless_dry_run t match v n)
unfolding unless_dry_run
Sim-unless_dry_run true match v m n h = Sim-pure _
Sim-unless_dry_run false match v m n h = h

ruleset write_rules =
    (ref_rules, Sim-node_match, Sim-rel_match, Sim-guarded_mutation, Sim-unless_dry_run)

abbrev pub erase_delete_node : DeleteNodeInput → DeleteNodeInput
erase_delete_node input = record input { ref = erase_ref input.ref }

-- delete-node
pub delete_node_values :
    (input : DeleteNodeInput)
    → statement (build_delete_node (erase_delete_node input)) ≡ statement (build_delete_node input)
unfolding build_delete_node
delete_node_values input =
    statement-run_build _ _ (rw (has_predicate-erase input.ref) (search write_rules depth 10))

Sim-set_step : (v : Str) (m : Params) → Sim (set_step v (erase_params m)) (set_step v m)
unfolding set_step
Sim-set_step v [] = search ref_rules
Sim-set_step v (x ∷ m) = search ref_rules

abbrev pub erase_update_node : UpdateNodeInput → UpdateNodeInput
erase_update_node input = record input { ref = erase_ref input.ref; set = erase_params input.set }

Sim-update_node_steps :
    (input : UpdateNodeInput)
    → Sim (update_node_steps (erase_update_node input)) (update_node_steps input)
unfolding update_node_steps
Sim-update_node_steps input = search (ref_rules, Sim-set_step) depth 9

-- update-node
pub update_node_values :
    (input : UpdateNodeInput)
    → statement (build_update_node (erase_update_node input)) ≡ statement (build_update_node input)
unfolding build_update_node
update_node_values input = statement-run_build _ _ (
    rw
      (
        has_predicate-erase input.ref,
        is_empty-erase_params input.set,
        check_property_keys-erase (codes "set") input.set,
      )
      (search (write_rules, Sim-update_node_steps) depth 14))

abbrev pub erase_create_relationship : CreateRelationshipInput → CreateRelationshipInput
erase_create_relationship input = record input {
  from = erase_ref input.from;
  to = erase_ref input.to;
  properties = erase_params input.properties;
}

Sim-create_write :
    (t : Str) (m : Params) (b : Bool) → Sim (create_write t (erase_params m) b) (create_write t m b)
unfolding create_write
Sim-create_write t m b = search ref_rules

-- create-relationship
pub create_relationship_values :
    (input : CreateRelationshipInput)
    → statement (build_create_relationship (erase_create_relationship input))
      ≡ statement (build_create_relationship input)
unfolding build_create_relationship
create_relationship_values input = statement-run_build _ _ (
    rw
      (
        has_predicate-erase input.from,
        has_predicate-erase input.to,
        check_property_keys-erase (codes "properties") input.properties,
      )
      (search (write_rules, Sim-create_write) depth 14))

abbrev pub erase_delete_relationship : DeleteRelationshipInput → DeleteRelationshipInput
erase_delete_relationship input = record input { ref = erase_rel input.ref }

-- delete-relationship
pub delete_relationship_values :
    (input : DeleteRelationshipInput)
    → statement (build_delete_relationship (erase_delete_relationship input))
      ≡ statement (build_delete_relationship input)
unfolding build_delete_relationship
delete_relationship_values input =
    statement-run_build _ _ (rw (rel_has_predicate-erase input.ref) (search write_rules depth 10))

abbrev pub erase_update_relationship : UpdateRelationshipInput → UpdateRelationshipInput
erase_update_relationship input = record input {
  ref = erase_rel input.ref;
  set = erase_params input.set;
}

Sim-update_relationship_steps :
    (input : UpdateRelationshipInput)
    → Sim
        (update_relationship_steps (erase_update_relationship input))
        (update_relationship_steps input)
unfolding update_relationship_steps
Sim-update_relationship_steps input = search (ref_rules, Sim-set_step) depth 9

-- update-relationship
pub update_relationship_values :
    (input : UpdateRelationshipInput)
    → statement (build_update_relationship (erase_update_relationship input))
      ≡ statement (build_update_relationship input)
unfolding build_update_relationship
update_relationship_values input = statement-run_build _ _ (
    rw
      (
        rel_has_predicate-erase input.ref,
        is_empty-erase_params input.set,
        check_property_keys-erase (codes "set") input.set,
      )
      (search (write_rules, Sim-update_relationship_steps) depth 14))
