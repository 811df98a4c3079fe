-- ===== src/Cypher/ReadCypher/Statements.antt =====
-- Which statements read-cypher executes.
use mathlib.Core.List.Memᴰ
use neo4j_mcp_canary.Prelude.{
  ℕ, Bool, true, false, List, [], ◌∷◌, ◌≡◌, ◌≢◌, ◌⊎◌, inl, inr, refl, Bool-cases, Memᴰ, ℤ, pos,
  ltb_int,
}
use neo4j_mcp_canary.Text.{Str, ◌==s◌}
use neo4j_mcp_canary.Graphutil.Value.{Params}
use neo4j_mcp_canary.Cypher.ReadCypher.{
  QueryType, read_only, other_type, ClassifyError, explain_unsupported, classify_failed,
  ExecuteError, RowReport, Dependencies, ReadCypherInput, Call, classified, estimated, executed,
  emitted, Run, Estimate, emit, emit_executed, encoded, formatted, execution, execute, guarded,
  estimate, classification, handle_read_cypher,
}
use neo4j_mcp_canary.Cypher.ReadCypher.Gate.{executions}

-- Every statement that is executed is this one, with these parameters.
abbrev pub Only : Str → Params → List Call → Type 0
Only query params [] = Unit
Only query params (executed q p ∷ calls) = (q ≡ query) × (p ≡ params) × Only query params calls
Only query params (call ∷ calls) = Only query params calls

pub same_of_Only :
    (query q : Str) (params p : Params) (calls : List Call)
    → Only query params calls
    → Memᴰ (executed q p) calls
    → (q ≡ query) × (p ≡ params)
same_of_Only query q params p [] h m = elim m [ ]
same_of_Only query q params p (executed q' p' ∷ calls) (a, b, rest) m = elim (Memᴰ.cases_cons m) [
  | inl e ↦ let (x, y) = executed_inj e in rw (x, y) (a, b)
  | inr m' ↦ same_of_Only query q params p calls rest m'
]
  where
    executed_inj : {s t : Str} {u v : Params} → executed s u ≡ executed t v → (s ≡ t) × (u ≡ v)
    executed_inj e = (cc, cc)
same_of_Only query q params p (classified q' p' ∷ calls) h m = elim (Memᴰ.cases_cons m) [
  | inl e ↦ absurd (cc)
  | inr m' ↦ same_of_Only query q params p calls h m'
]
same_of_Only query q params p (estimated q' p' ∷ calls) h m = elim (Memᴰ.cases_cons m) [
  | inl e ↦ absurd (cc)
  | inr m' ↦ same_of_Only query q params p calls h m'
]
same_of_Only query q params p (emitted o e n t ∷ calls) h m = elim (Memᴰ.cases_cons m) [
  | inl e' ↦ absurd (cc)
  | inr m' ↦ same_of_Only query q params p calls h m'
]

pub executions-Memᴰ :
    (q : Str) (p : Params) (calls : List Call) → Memᴰ (executed q p) calls → executions calls ≢ 0
executions-Memᴰ q p [] m h = elim m [ ]
executions-Memᴰ q p (executed q' p' ∷ calls) m h = absurd (cc)
executions-Memᴰ q p (classified q' p' ∷ calls) m h = elim (Memᴰ.cases_cons m) [
  | inl e ↦ absurd (cc)
  | inr m' ↦ executions-Memᴰ q p calls m' h
]
executions-Memᴰ q p (estimated q' p' ∷ calls) m h = elim (Memᴰ.cases_cons m) [
  | inl e ↦ absurd (cc)
  | inr m' ↦ executions-Memᴰ q p calls m' h
]
executions-Memᴰ q p (emitted o e n t ∷ calls) m h = elim (Memᴰ.cases_cons m) [
  | inl e' ↦ absurd (cc)
  | inr m' ↦ executions-Memᴰ q p calls m' h
]

module _ {R : Type 0} (deps : Dependencies R) (input : ReadCypherInput) where
  -- The calls execute nothing but the request's statement.
  abbrev Own : Run → Type 0
  Own run = Only input.query input.params run.0

  emit-Only :
      (o : Str) (e : ℤ) (n : ℕ) (t : Bool) → Only input.query input.params (emit deps o e n t)
  emit-Only o e n t = elim (Bool-cases deps.analytics_enabled) [ inl q ↦ rw q tt | inr q ↦ rw q tt ]

  emit_executed-Only :
      (est : Estimate) (r : RowReport) → Only input.query input.params (emit_executed deps est r)
  emit_executed-Only est r = elim (Bool-cases est.consulted) [
    | inl q ↦ rw q (emit-Only _ _ _ _)
    | inr q ↦ rw q tt
  ]

  encoded-Own : (est : Estimate) (r : R) (j : Str) (o : Str ⊎ Str) → Own (encoded deps est r j o)
  encoded-Own est r j (inl e) = tt
  encoded-Own est r j (inr s) = emit_executed-Only est _

  formatted-Own : (est : Estimate) (r : R) (o : Str ⊎ Str) → Own (formatted deps est r o)
  formatted-Own est r (inl e) = tt
  formatted-Own est r (inr j) = encoded-Own est r j _

  execution-Own : (est : Estimate) (o : ExecuteError ⊎ R) → Own (execution deps est o)
  execution-Own est (inl e) = tt
  execution-Own est (inr r) = formatted-Own est r _

  execute-Own : (est : Estimate) → Own (execute deps input est)
  execute-Own est = (refl, refl, execution-Own est _)

  guarded-Own : (o : Str ⊎ ℤ) → Own (guarded deps input o)
  guarded-Own (inl e) = execute-Own (record { consulted = true; failed = true; rows = pos 0 })
  guarded-Own (inr rows) = elim (Bool-cases (ltb_int deps.max_estimated_rows rows)) [
    | inl q ↦ rw q (emit-Only _ _ _ _)
    | inr q ↦ rw q (execute-Own (record { consulted = true; failed = false; rows = rows }))
  ]

  estimate-Own : Own (estimate deps input)
  estimate-Own = elim (Bool-cases (ltb_int (pos 0) deps.max_estimated_rows)) [
    | inl q ↦ rw q (guarded-Own _)
    | inr q ↦ rw q (execute-Own (record { consulted = false; failed = false; rows = pos 0 }))
  ]

  classification-Own : (o : ClassifyError ⊎ QueryType) → Own (classification deps input o)
  classification-Own (inl explain_unsupported) = tt
  classification-Own (inl (classify_failed e)) = tt
  classification-Own (inr (other_type t)) = tt
  classification-Own (inr read_only) = estimate-Own

  -- A request executes no statement but its own, with its own parameters.
  pub read_cypher-Own : Own (handle_read_cypher (inr deps) (inr input))
  unfolding handle_read_cypher
  read_cypher-Own = elim (Bool-cases (input.query ==s [])) [
    | inl q ↦ rw q tt
    | inr q ↦ rw q (classification-Own _)
  ]
