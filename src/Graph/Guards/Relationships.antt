-- ===== src/Graph/Guards/Relationships.antt =====
-- The guards of delete-relationship and update-relationship.
use mathlib.Core.Path.{subst}
use neo4j_mcp_canary.Prelude.{sym, ◌++◌, [], true, false, ◌≡◌, ◌⊎◌, inl, inr}
use neo4j_mcp_canary.Text.{Str, codes, concat}
use neo4j_mcp_canary.Graphutil.Error.{ok}
use neo4j_mcp_canary.Graphutil.Builder.{Builder, new_builder}
use neo4j_mcp_canary.Graphutil.Query.{Query}
use neo4j_mcp_canary.Graphutil.Sequential.{Sequential, sequential_rules}
use neo4j_mcp_canary.Graphutil.Success.{>>=_ok, lift-bind_ok, require_ok, run_build_ok}
use neo4j_mcp_canary.Graph.RelRef.{rel_match}
use neo4j_mcp_canary.Graph.Relationships.{
  DeleteRelationshipInput, delete_relationship_body, build_delete_relationship,
  UpdateRelationshipInput, update_relationship_steps, update_relationship_body,
  build_update_relationship,
}
use neo4j_mcp_canary.Graph.Selection.{RelSelects, rel_has_predicate-RelSelects}
use neo4j_mcp_canary.Graph.Narrowing.{Narrowed, rel_count, rel_match-Narrowed}
use neo4j_mcp_canary.Graph.Wording.{
  relationship_wording, PreviewsOnly, MutatesGuarded, relationship-Previews, relationship-Words,
}
use neo4j_mcp_canary.Graphutil.Projection.{rel_map}
use neo4j_mcp_canary.Graph.Guards.{
  Sequential-rel_match, Sequential-set_step, Sequential-after, guarded_tail, unless_dry_run_ok,
}

Sequential-update_relationship_steps :
    (input : UpdateRelationshipInput) → Sequential (update_relationship_steps input)
unfolding update_relationship_steps
Sequential-update_relationship_steps input = search (sequential_rules, Sequential-set_step)

-- A delete-relationship that builds a query was given an id, a match, filters or an end with one of
-- these, and its MATCH has a WHERE with one condition for each id, property and filter of the
-- relationship and its ends. With dryRun the query only previews what the MATCH selects. Without it
-- the statement deletes only what is in a MATCH of at most maxAffected relationships, a bound
-- parameter whose value lies between 1 and 1000.
pub delete_relationship_guard :
    (input : DeleteRelationshipInput) (q : Query)
    → build_delete_relationship input ≡ ok q
    → RelSelects input.ref
      × (match : Str) × (b : Builder) × (rel_match input.ref new_builder ≡ ok (match, b))
      × Narrowed (rel_count input.ref) match
      × (((input.dry_run ≡ true) × PreviewsOnly relationship_wording match q)
          ⊎ ((input.dry_run ≡ false)
              × MutatesGuarded relationship_wording match
                  (codes "DELETE r")
                  (codes "count(*)")
                  (codes "deleted")
                  input.max_affected
                  q))
unfolding build_delete_relationship delete_relationship_body
delete_relationship_guard input q h =
    let (d, c, made, same) = run_build_ok (delete_relationship_body input) q h in
    let (u, selective, made1) = lift-bind_ok _ _ new_builder (d, c) made in
    let (m, max_ok, made2) = lift-bind_ok _ _ new_builder (d, c) made1 in
    let (match, b, matched, made3) = >>=_ok _ _ new_builder (d, c) made2 in
    let seq = Sequential-after (Sequential-rel_match input.ref) new_builder match b tt matched in
    (
      rel_has_predicate-RelSelects input.ref (require_ok _ _ u selective),
      match,
      b,
      matched,
      rel_match-Narrowed input.ref new_builder b match (require_ok _ _ u selective) matched,
      rw same
          (elim (unless_dry_run_ok relationship_wording input.dry_run match (codes "r") _ b d c
            relationship-Previews made3) [
              | inl (e, h') ↦ inl (e, h')
              | inr (e, h') ↦ inr (
                e,
                guarded_tail relationship_wording match (codes "r") _ _ _ _ _ input.max_affected m b
                    relationship-Words seq max_ok d c h',
              )
            ]),
    )

-- What the query of an update-relationship is, for the match of its reference.
abbrev pub UpdatesRelationships : UpdateRelationshipInput → Str → Builder → Query → Type 0
UpdatesRelationships input match b q =
    ((input.dry_run ≡ true) × PreviewsOnly relationship_wording match q)
    ⊎ ((input.dry_run ≡ false)
        × (steps : Str) × (b' : Builder) × (update_relationship_steps input b ≡ ok (steps, b'))
        × MutatesGuarded relationship_wording match steps
            (codes "collect(" ++ (rel_map (codes "r") [] ++ codes ")")) (codes "updated")
            input.max_affected q)

-- An update-relationship that builds a query was given an id, a match, filters or an end with one of
-- these, and its MATCH has a WHERE with one condition for each id, property and filter of the
-- relationship and its ends. With dryRun the query only previews what the MATCH selects. Without it
-- the statement runs the steps that the code writes for the request only on what is in a MATCH of at
-- most maxAffected relationships, a bound parameter whose value lies between 1 and 1000.
pub update_relationship_guard :
    (input : UpdateRelationshipInput) (q : Query)
    → build_update_relationship input ≡ ok q
    → RelSelects input.ref
      × (match : Str) × (b : Builder) × (rel_match input.ref new_builder ≡ ok (match, b))
      × Narrowed (rel_count input.ref) match
      × UpdatesRelationships input match b q
unfolding build_update_relationship update_relationship_body concat
update_relationship_guard input q h =
    let (d, c, made, same) = run_build_ok (update_relationship_body input) q h in
    let (u, selective, made1) = lift-bind_ok _ _ new_builder (d, c) made in
    let (u2, some_change, made2) = lift-bind_ok _ _ new_builder (d, c) made1 in
    let (u3, keys_ok, made3) = lift-bind_ok _ _ new_builder (d, c) made2 in
    let (m, max_ok, made4) = lift-bind_ok _ _ new_builder (d, c) made3 in
    let (match, b, matched, made5) = >>=_ok _ _ new_builder (d, c) made4 in
    let seq = Sequential-after (Sequential-rel_match input.ref) new_builder match b tt matched in
    (
      rel_has_predicate-RelSelects input.ref (require_ok _ _ u selective),
      match,
      b,
      matched,
      rel_match-Narrowed input.ref new_builder b match (require_ok _ _ u selective) matched,
      subst (UpdatesRelationships input match b) (sym same)
          (elim (unless_dry_run_ok relationship_wording input.dry_run match (codes "r") _ b d c
            relationship-Previews made5) [
              | inl (e, h') ↦ inl (e, h')
              | inr (e, h') ↦
                  let (steps, b', stepped, h'') = >>=_ok _ _ b (d, c) h' in
                  let seq' =
                    Sequential-after (Sequential-update_relationship_steps input) b steps b' seq
                      stepped in
                  let guarded =
                    guarded_tail relationship_wording match (codes "r") _ _ _ _ _ input.max_affected
                      m b' relationship-Words seq' max_ok d c h'' in
                  inr (e, steps, b', stepped, guarded)
            ]),
    )
