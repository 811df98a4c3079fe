-- ===== src/Graph/Wording.antt =====
-- The wording of the two forms of query round a mutation, as literal texts.
use neo4j_mcp_canary.Prelude.{true, false, ◌∷◌, ◌≡◌, ◌⊎◌, refl, some, ℤ, pos, ◌≤ℤ◌, ◌++◌}
use neo4j_mcp_canary.Text.{Str, codes, concat}
use neo4j_mcp_canary.Graphutil.Value.{lookup, int, str}
use neo4j_mcp_canary.Graphutil.Query.{Query}
use neo4j_mcp_canary.Graph.Common.{guarded_text, dry_run_query}

-- The words of the statements round a match: what a dry run appends to it, and what stands before the
-- placeholder of the limit, and between it and the mutation.
pub record Wording : Type 0 where
  pub preview : Str
  pub counting : Str
  pub unwinding : Str

abbrev pub node_wording : Wording
node_wording = record {
  preview =
      codes
        "\nWITH count(n) AS matched, collect(elementId(n))[..10] AS sampleIds\nRETURN matched, sampleIds, false AS performed,\n  CASE WHEN matched = 0 THEN 'dryRun: nothing matched this selection, so a real call would change nothing' ELSE 'dryRun: nothing was changed' END AS message";
  counting =
      codes
        "\nWITH collect(n) AS items\nWITH items, size(items) AS matched\nWITH items, matched, matched <= ";
  unwinding =
      codes
        " AS allowed\nCALL (items, allowed) {\n  UNWIND CASE WHEN allowed THEN items ELSE [] END AS n\n  ";
}

abbrev pub relationship_wording : Wording
relationship_wording = record {
  preview =
      codes
        "\nWITH count(r) AS matched, collect(elementId(r))[..10] AS sampleIds\nRETURN matched, sampleIds, false AS performed,\n  CASE WHEN matched = 0 THEN 'dryRun: nothing matched this selection, so a real call would change nothing' ELSE 'dryRun: nothing was changed' END AS message";
  counting =
      codes
        "\nWITH collect(r) AS items\nWITH items, size(items) AS matched\nWITH items, matched, matched <= ";
  unwinding =
      codes
        " AS allowed\nCALL (items, allowed) {\n  UNWIND CASE WHEN allowed THEN items ELSE [] END AS r\n  ";
}

-- The query only reads: it counts and samples what the match selects.
abbrev pub PreviewsOnly : Wording → Str → Query → Type 0
PreviewsOnly words match q = (q.write ≡ false) × (q.cypher ≡ match ++ words.preview)

-- The statement of a mutation: it collects what the match selects, compares the number with the
-- placeholder of the limit, and runs the mutation in an UNWIND of the collected items, or of no item
-- at all when they are more than that. The message is one of two further placeholders, or null.
abbrev pub guard_words : Wording → Str → Str → Str → Str → Str → Str → Str → Str
guard_words words match mutation result alias limit missing refused =
    match
    ++ (words.counting
        ++ ((b'$' ∷ limit)
            ++ (words.unwinding
                ++ (mutation
                    ++ (codes "\n  RETURN "
                        ++ (result
                            ++ (codes " AS "
                                ++ (alias
                                    ++ (codes
                                          "\n}\nRETURN matched, allowed AND matched > 0 AS performed, "
                                        ++ (alias
                                            ++ (codes ", CASE WHEN matched = 0 THEN "
                                                ++ ((b'$' ∷ missing)
                                                    ++ (codes " WHEN allowed THEN null ELSE "
                                                        ++ ((b'$' ∷ refused)
                                                            ++ codes " END AS message"))))))))))))))

-- The query is a write with such a statement. The placeholders are bound, the ones of the message to
-- texts; the limit is the number of the request, 1 if that is 0, and lies between 1 and 1000.
abbrev pub MutatesGuarded : Wording → Str → Str → Str → Str → ℤ → Query → Type 0
MutatesGuarded words match mutation result alias requested q =
    (limit : Str) × (missing : Str) × (refused : Str) × (max_affected : ℤ) × (why : Str)
    × (hint : Str) × (q.write ≡ true)
    × (q.cypher ≡ guard_words words match mutation result alias limit missing refused)
    × (lookup limit q.params ≡ some (int max_affected))
    × (lookup refused q.params ≡ some (str why))
    × (lookup missing q.params ≡ some (str hint))
    × ((max_affected ≡ requested) ⊎ ((requested ≡ pos 0) × (max_affected ≡ pos 1)))
    × (pos 1 ≤ℤ max_affected)
    × (max_affected ≤ℤ pos 1000)

-- A dry run appends the preview to the match.
abbrev pub Previews : Wording → Str → Type 0
Previews words v = (match : Str) → dry_run_query match v ≡ match ++ words.preview

pub node-Previews : Previews node_wording (codes "n")
unfolding dry_run_query concat
node-Previews match = refl

pub relationship-Previews : Previews relationship_wording (codes "r")
unfolding dry_run_query concat
relationship-Previews match = refl

-- The words of a guard are those of a mutation of this variable.
abbrev pub Words : Wording → Str → Type 0
Words words v =
    (match mutation result alias limit missing refused : Str)
    → guarded_text match v mutation result alias (b'$' ∷ limit) (b'$' ∷ refused) (b'$' ∷ missing)
      ≡ guard_words words match mutation result alias limit missing refused

pub node-Words : Words node_wording (codes "n")
unfolding guarded_text concat
node-Words match mutation result alias limit missing refused = refl

pub relationship-Words : Words relationship_wording (codes "r")
unfolding guarded_text concat
relationship-Words match mutation result alias limit missing refused = refl
