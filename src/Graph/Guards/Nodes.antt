-- ===== src/Graph/Guards/Nodes.antt =====
-- The guards of delete-node and update-node.
use mathlib.Core.Path.{subst}
use neo4j_mcp_canary.Prelude.{sym, if◌then◌else◌, ◌++◌, [], true, false, ◌≡◌, ◌⊎◌, inl, inr}
use neo4j_mcp_canary.Text.{Str, codes, concat}
use neo4j_mcp_canary.Graphutil.Error.{ok}
use neo4j_mcp_canary.Graphutil.Builder.{Builder, new_builder}
use neo4j_mcp_canary.Graphutil.Query.{Query}
use neo4j_mcp_canary.Graphutil.Sequential.{Sequential, sequential_rules}
use neo4j_mcp_canary.Graphutil.Success.{>>=_ok, lift-bind_ok, require_ok, run_build_ok}
use neo4j_mcp_canary.Graph.Nodes.{
  DeleteNodeInput, delete_node_body, build_delete_node, UpdateNodeInput, update_node_steps,
  update_node_body, build_update_node,
}
use neo4j_mcp_canary.Graph.Selection.{Selects, has_predicate-Selects}
use neo4j_mcp_canary.Graph.Narrowing.{Narrowed, node_count, node_match-Narrowed}
use neo4j_mcp_canary.Graph.Wording.{
  node_wording, PreviewsOnly, MutatesGuarded, node-Previews, node-Words,
}
use neo4j_mcp_canary.Graph.Common.{node_match}
use neo4j_mcp_canary.Graphutil.Projection.{node_map}
use neo4j_mcp_canary.Graph.Guards.{
  Sequential-node_match, Sequential-set_step, Sequential-after, guarded_tail, unless_dry_run_ok,
}

Sequential-update_node_steps : (input : UpdateNodeInput) → Sequential (update_node_steps input)
unfolding update_node_steps
Sequential-update_node_steps input = search (sequential_rules, Sequential-set_step)

-- A delete-node that builds a query was given an id, a match or filters, and its MATCH has a WHERE with
-- one condition for the id, each property of the match and each filter. With dryRun the query only
-- previews what the MATCH selects. Without it the statement deletes, with or without the relationships
-- as the request says, only what is in a MATCH of at most maxAffected nodes, a bound parameter whose
-- value lies between 1 and 1000.
pub delete_node_guard :
    (input : DeleteNodeInput) (q : Query)
    → build_delete_node input ≡ ok q
    → Selects input.ref
      × (match : Str) × (b : Builder) × (node_match input.ref (codes "n") new_builder
          ≡ ok (match, b))
      × Narrowed (node_count input.ref) match
      × (((input.dry_run ≡ true) × PreviewsOnly node_wording match q)
          ⊎ ((input.dry_run ≡ false)
              × MutatesGuarded node_wording match
                  (if input.detach then codes "DETACH DELETE n" else codes "DELETE n")
                  (codes "count(*)")
                  (codes "deleted")
                  input.max_affected
                  q))
unfolding build_delete_node delete_node_body
delete_node_guard input q h =
    let (d, c, made, same) = run_build_ok (delete_node_body input) q h in
    let (u, selective, made1) = lift-bind_ok _ _ new_builder (d, c) made in
    let (m, max_ok, made2) = lift-bind_ok _ _ new_builder (d, c) made1 in
    let (match, b, matched, made3) = >>=_ok _ _ new_builder (d, c) made2 in
    let seq =
      Sequential-after (Sequential-node_match input.ref (codes "n")) new_builder match b tt
        matched in
    (
      has_predicate-Selects input.ref (require_ok _ _ u selective),
      match,
      b,
      matched,
      node_match-Narrowed input.ref (codes "n") new_builder b match (require_ok _ _ u selective)
          matched,
      rw same
          (elim (unless_dry_run_ok node_wording input.dry_run match (codes "n") _ b d c
            node-Previews made3) [
              | inl (e, h') ↦ inl (e, h')
              | inr (e, h') ↦ inr (
                e,
                guarded_tail node_wording match (codes "n") _ _ _ _ _ input.max_affected m b
                    node-Words seq max_ok d c h',
              )
            ]),
    )

-- What the query of an update-node is, for the match of its reference.
abbrev pub UpdatesNodes : UpdateNodeInput → Str → Builder → Query → Type 0
UpdatesNodes input match b q =
    ((input.dry_run ≡ true) × PreviewsOnly node_wording match q)
    ⊎ ((input.dry_run ≡ false)
        × (steps : Str) × (b' : Builder) × (update_node_steps input b ≡ ok (steps, b'))
        × MutatesGuarded node_wording match steps
            (codes "collect(" ++ (node_map (codes "n") [] ++ codes ")")) (codes "updated")
            input.max_affected q)

-- An update-node that builds a query was given an id, a match or filters, and its MATCH has a WHERE
-- with one condition for the id, each property of the match and each filter. With dryRun the query
-- only previews what the MATCH selects. Without it the statement runs the steps that the code writes
-- for the request only on what is in a MATCH of at most maxAffected nodes, a bound parameter whose
-- value lies between 1 and 1000.
pub update_node_guard :
    (input : UpdateNodeInput) (q : Query)
    → build_update_node input ≡ ok q
    → Selects input.ref
      × (match : Str) × (b : Builder) × (node_match input.ref (codes "n") new_builder
          ≡ ok (match, b))
      × Narrowed (node_count input.ref) match
      × UpdatesNodes input match b q
unfolding build_update_node update_node_body concat
update_node_guard input q h =
    let (d, c, made, same) = run_build_ok (update_node_body input) q h in
    let (u, selective, made1) = lift-bind_ok _ _ new_builder (d, c) made in
    let (u2, some_change, made2) = lift-bind_ok _ _ new_builder (d, c) made1 in
    let (u3, keys_ok, made3) = lift-bind_ok _ _ new_builder (d, c) made2 in
    let (m, max_ok, made4) = lift-bind_ok _ _ new_builder (d, c) made3 in
    let (match, b, matched, made5) = >>=_ok _ _ new_builder (d, c) made4 in
    let seq =
      Sequential-after (Sequential-node_match input.ref (codes "n")) new_builder match b tt
        matched in
    (
      has_predicate-Selects input.ref (require_ok _ _ u selective),
      match,
      b,
      matched,
      node_match-Narrowed input.ref (codes "n") new_builder b match (require_ok _ _ u selective)
          matched,
      subst (UpdatesNodes input match b) (sym same)
          (elim (unless_dry_run_ok node_wording input.dry_run match (codes "n") _ b d c
            node-Previews made5) [
              | inl (e, h') ↦ inl (e, h')
              | inr (e, h') ↦
                  let (steps, b', stepped, h'') = >>=_ok _ _ b (d, c) h' in
                  let seq' =
                    Sequential-after (Sequential-update_node_steps input) b steps b' seq stepped in
                  let guarded =
                    guarded_tail node_wording match (codes "n") _ _ _ _ _ input.max_affected m b'
                      node-Words seq' max_ok d c h'' in
                  inr (e, steps, b', stepped, guarded)
            ]),
    )
