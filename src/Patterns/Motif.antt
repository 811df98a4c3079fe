-- ===== src/Patterns/Motif.antt =====
-- patterns/motif.go: find-motif.
use neo4j_mcp_canary.Prelude.{
  Bool, true, false, ◌||◌, List, [], ◌∷◌, ◌++◌, Option, none, some, if◌then◌else◌, ℤ, pos,
}
use neo4j_mcp_canary.Text.{Str, codes, concat, ◌==s◌}
use neo4j_mcp_canary.Graphutil.Value.{int}
use neo4j_mcp_canary.Graphutil.Error.{Result, err, context, bad_motif}
use neo4j_mcp_canary.Graphutil.Builder.{Build, ◌>>=◌, pure, lift, param, wrapping}
use neo4j_mcp_canary.Graphutil.Quote.{label_expr, type_expr, where_clause}
use neo4j_mcp_canary.Graphutil.NodeRef.{NodeRef, conditions}
use neo4j_mcp_canary.Graphutil.Limits.{
  int_in_range, quantified_rel, single_rel, outgoing, incoming, both,
}
use neo4j_mcp_canary.Graphutil.Projection.{node_summary, path_map}
use neo4j_mcp_canary.Graphutil.Query.{Query, Draft, read_draft, run_build}
use neo4j_mcp_canary.Traversal.Expand.{or_empty}

pub record FindMotifInput : Type 0 where
  pub motif : Str
  pub relationship_types : List Str
  pub node_labels : List Str
  pub start : Option NodeRef
  pub min_degree : ℤ
  pub cycle_length : ℤ
  pub node_properties : List Str
  pub limit : ℤ

-- `in.Start != nil`
abbrev pub is_anchored : Option NodeRef → Bool
is_anchored none = false
is_anchored (some r) = true

-- `anchor`, for the reference that stands for `start`
unfoldable pub anchor : List Str → NodeRef → Str → Build Str
anchor node_labels ref v = wrapping (context (codes "start")) (conditions ref v) >>= λ conds.
    lift (label_expr (node_labels ++ ref.labels)) >>= λ labels.
    pure (concat (codes "(" ∷ v ∷ labels ∷ where_clause conds ∷ codes ")" ∷ []))

-- The map from the motif to the direction.
abbrev pub motif_direction : Str → Str
motif_direction motif =
    if motif ==s codes "star"
    then both
    else if motif ==s codes "fan-out"
    then outgoing
    else incoming

unfoldable pub hub_motif : FindMotifInput → ℤ → Str → Build Draft
hub_motif input limit types =
    lift (int_in_range (codes "minDegree") input.min_degree (pos 3) (pos 1) (pos 100000000))
    >>= λ min_degree. lift (single_rel (motif_direction input.motif) [] types) >>= λ rel.
        anchor input.node_labels (or_empty input.start) (codes "h") >>= λ hub.
        param (int min_degree) >>= λ d. param (int limit) >>= λ l. pure (
          read_draft (
            concat (
              codes "MATCH "
              ∷ hub
              ∷ codes "\nWITH h, COUNT { (h)"
              ∷ rel
              ∷ codes "() } AS degree\nWHERE degree >= "
              ∷ d
              ∷ codes "\nRETURN "
              ∷ node_summary (codes "h") input.node_properties
              ∷ codes " AS hub, degree\nORDER BY degree DESC\nLIMIT "
              ∷ l
              ∷ [])))

unfoldable pub triangle_motif : FindMotifInput → ℤ → Str → Str → Build Draft
triangle_motif input limit types labels = lift (single_rel both [] types) >>= λ rel.
    anchor input.node_labels (or_empty input.start) (codes "a") >>= λ a. param (int limit) >>= λ l.
    pure (
      read_draft (
        concat (
          codes "MATCH p = "
          ∷ a
          ∷ rel
          ∷ codes "(b"
          ∷ labels
          ∷ codes ")"
          ∷ rel
          ∷ codes "(c"
          ∷ labels
          ∷ codes ")"
          ∷ rel
          ∷ codes "(a)\nWHERE a <> b AND b <> c AND a <> c AND "
          ∷ (if is_anchored input.start
              then codes "elementId(b) < elementId(c)"
              else codes "elementId(a) < elementId(b) AND elementId(b) < elementId(c)")
          ∷ codes "\nRETURN DISTINCT "
          ∷ path_map (codes "p") input.node_properties
          ∷ codes " AS path\nLIMIT "
          ∷ l
          ∷ [])))

-- `where` of the cycle case
unfoldable pub cycle_where : Bool → Str → Str
cycle_where anchored labels = concat (
    codes
      "WITH p, nodes(p) AS ns WHERE all(i IN range(1, size(ns) - 2) WHERE none(j IN range(0, i - 1) WHERE ns[i] = ns[j]))"
    ∷ (if anchored then [] else codes " AND all(x IN ns WHERE elementId(x) >= elementId(ns[0]))")
    ∷ (if labels ==s []
        then []
        else concat (codes " AND all(x IN ns WHERE x" ∷ labels ∷ codes ")" ∷ []))
    ∷ [])

unfoldable pub cycle_motif : FindMotifInput → ℤ → Str → Str → Build Draft
cycle_motif input limit types labels =
    lift (int_in_range (codes "cycleLength") input.cycle_length (pos 3) (pos 2) (pos 6))
    >>= λ length. lift (quantified_rel outgoing types length length) >>= λ rel.
        anchor input.node_labels (or_empty input.start) (codes "a") >>= λ a.
        param (int limit) >>= λ l. pure (
          read_draft (
            concat (
              codes "MATCH p = "
              ∷ a
              ∷ rel
              ∷ codes "(a)\n"
              ∷ cycle_where (is_anchored input.start) labels
              ∷ codes "\nRETURN "
              ∷ path_map (codes "p") input.node_properties
              ∷ codes " AS path\nLIMIT "
              ∷ l
              ∷ [])))

-- The switch on the motif.
unfoldable pub motif_case : FindMotifInput → ℤ → Str → Str → Build Draft
motif_case input limit types labels =
    if input.motif ==s codes "star"
      || input.motif ==s codes "fan-in"
      || input.motif ==s codes "fan-out"
    then hub_motif input limit types
    else if input.motif ==s codes "triangle"
    then triangle_motif input limit types labels
    else if input.motif ==s codes "cycle"
    then cycle_motif input limit types labels
    else lift (err (bad_motif input.motif))

unfoldable pub motif_body : FindMotifInput → Build Draft
motif_body input =
    lift (int_in_range (codes "limit") input.limit (pos 25) (pos 1) (pos 100)) >>= λ limit.
    lift (type_expr input.relationship_types) >>= λ types.
    lift (label_expr input.node_labels) >>= λ labels. motif_case input limit types labels

-- buildFindMotif
unfoldable pub build_find_motif : FindMotifInput → Result Query
unfolding motif_body motif_case
build_find_motif input = run_build (motif_body input)
