-- ===== src/Cypher/ReadCypher/Gate.antt =====
-- When read-cypher runs a statement.
use mathlib.Core.Path.{subst}
use neo4j_mcp_canary.Prelude.{
  ℕ, suc, Bool, true, false, List, [], ◌∷◌, ◌≡◌, ◌⊎◌, inl, inr, refl, sym, ap, ◌∙◌, Bool-cases,
  if◌then◌else◌, ℤ, pos, ltb_int,
}
use neo4j_mcp_canary.Text.{Str, ◌==s◌}
use neo4j_mcp_canary.Cypher.ReadCypher.{
  QueryType, read_only, other_type, ClassifyError, explain_unsupported, classify_failed,
  ExecuteError, RowReport, Dependencies, ReadCypherInput, Call, classified, estimated, executed,
  Reply, rows_reply, Run, Estimate, emit, emit_executed, encoded, formatted, execution, execute,
  guarded, estimate, calls_first, classification, bound, handle_read_cypher, profile_redirect,
  write_redirect,
}

-- How often the run executes a statement.
abbrev pub executions : List Call → ℕ
executions [] = 0
executions (executed query params ∷ calls) = suc (executions calls)
executions (call ∷ calls) = executions calls

abbrev pub is_rows : Reply → Bool
is_rows (rows_reply response json) = true
is_rows reply = false

-- One execution of a request that is admitted, or none, and no rows in the reply.
pub data Outcome (A : Type 0) (run : Run) : Type 0 where
  ran : executions run.0 ≡ 1 → A → Outcome A run
  refused : executions run.0 ≡ 0 → is_rows run.1 ≡ false → ¬ A → Outcome A run

Outcome-map :
    {A B : Type 0} (run run' : Run)
    → executions run'.0 ≡ executions run.0
    → is_rows run'.1 ≡ is_rows run.1
    → (A → B)
    → (B → A)
    → Outcome A run
    → Outcome B run'
Outcome-map run run' same reply f g (ran n a) = ran (same ∙ n) (f a)
Outcome-map run run' same reply f g (refused n r deny) =
    refused (same ∙ n) (reply ∙ r) (λ b. deny (g b))

module _ {R : Type 0} (deps : Dependencies R) where
  -- An estimate that failed stops nothing, and one that was given stops a query above the limit.
  abbrev pub GuardAllows : Str ⊎ ℤ → Type 0
  GuardAllows (inl e) = Unit
  GuardAllows (inr rows) = ltb_int deps.max_estimated_rows rows ≡ false

  -- The guard on estimated rows is off, or lets the estimate pass.
  abbrev pub EstimateAllows : ReadCypherInput → Type 0
  EstimateAllows input =
      (ltb_int (pos 0) deps.max_estimated_rows ≡ false)
      ⊎ GuardAllows (deps.service.estimate_row_count input.query input.params)

  -- The request decodes to a query that is not empty, that the server classifies as read-only, and
  -- that the guard on estimated rows allows.
  abbrev pub Admitted : Str ⊎ ReadCypherInput → Type 0
  Admitted request =
      (input : ReadCypherInput) × (request ≡ inr input)
      × ((input.query ==s []) ≡ false)
      × (deps.service.get_query_type input.query input.params ≡ inr read_only)
      × EstimateAllows input

  emit-none : (o : Str) (e : ℤ) (n : ℕ) (t : Bool) → executions (emit deps o e n t) ≡ 0
  emit-none o e n t = elim (Bool-cases deps.analytics_enabled) [ inl q ↦ rw q | inr q ↦ rw q ]

  emit_executed-none : (est : Estimate) (r : RowReport) → executions (emit_executed deps est r) ≡ 0
  emit_executed-none est r = elim (Bool-cases est.consulted) [
    | inl q ↦ rw q (emit-none _ _ _ _)
    | inr q ↦ rw q
  ]

  encoded-none :
      (est : Estimate) (r : R) (j : Str) (o : Str ⊎ Str) → executions (encoded deps est r j o).0 ≡ 0
  encoded-none est r j (inl e) = refl
  encoded-none est r j (inr s) = emit_executed-none est _

  formatted-none :
      (est : Estimate) (r : R) (o : Str ⊎ Str) → executions (formatted deps est r o).0 ≡ 0
  formatted-none est r (inl e) = refl
  formatted-none est r (inr j) = encoded-none est r j _

  execution-none : (est : Estimate) (o : ExecuteError ⊎ R) → executions (execution deps est o).0 ≡ 0
  execution-none est (inl e) = refl
  execution-none est (inr r) = formatted-none est r _

  execute-once :
      (input : ReadCypherInput) (est : Estimate) → executions (execute deps input est).0 ≡ 1
  execute-once input est = ap suc (execution-none est _)

  guarded_lem :
      (input : ReadCypherInput) (o : Str ⊎ ℤ) → Outcome (GuardAllows o) (guarded deps input o)
  guarded_lem input (inl e) =
      ran (execute-once input (record { consulted = true; failed = true; rows = pos 0 })) tt
  guarded_lem input (inr rows) = elim (Bool-cases (ltb_int deps.max_estimated_rows rows)) [
    | inl q ↦ rw q (refused (emit-none _ _ _ _) refl (λ h. absurd (cc)))
    | inr q ↦
        rw q
          (ran (execute-once input (record { consulted = true; failed = false; rows = rows })) refl)
  ]

  estimate_lem : (input : ReadCypherInput) → Outcome (EstimateAllows input) (estimate deps input)
  estimate_lem input = elim (Bool-cases (ltb_int (pos 0) deps.max_estimated_rows)) [
    | inl q ↦
        let o = deps.service.estimate_row_count input.query input.params in
        let on = guarded_lem input o in
        rw q (
          Outcome-map (guarded deps input o)
            (calls_first (estimated input.query input.params ∷ []) (guarded deps input o)) refl refl
            inr (λ b. elim b [ inl off ↦ absurd (cc) | inr a ↦ a ]) on)
    | inr q ↦ rw q (
        ran (execute-once input (record { consulted = false; failed = false; rows = pos 0 }))
          (inl refl))
  ]

  redirected : (t : Bool) → is_rows (if t then profile_redirect else write_redirect) ≡ false
  redirected true = refl
  redirected false = refl

  classification_lem :
      (input : ReadCypherInput) (o : ClassifyError ⊎ QueryType)
      → Outcome ((o ≡ inr read_only) × EstimateAllows input) (classification deps input o)
  classification_lem input (inl explain_unsupported) = refused refl refl (λ (h, a). absurd (cc))
  classification_lem input (inl (classify_failed e)) = refused refl refl (λ (h, a). absurd (cc))
  classification_lem input (inr (other_type t)) =
      refused refl (redirected _) (λ (h, a). absurd (cc))
  classification_lem input (inr read_only) =
      Outcome-map _ (estimate deps input) refl refl (λ a. (refl, a)) (λ (h, a). a)
        (estimate_lem input)

  pub input_inj : {i j : ReadCypherInput} → ◌≡◌ {A = Str ⊎ ReadCypherInput} (inr i) (inr j) → i ≡ j
  input_inj {i = i} e = ap (λ o. elim o [ inl x ↦ i | inr z ↦ z ]) e

  bound_lem : (request : Str ⊎ ReadCypherInput) → Outcome (Admitted request) (bound deps request)
  bound_lem (inl e) = refused refl refl (λ (i, h, full, c, a). absurd (cc))
  bound_lem (inr input) = elim (Bool-cases (input.query ==s [])) [
    | inl q ↦ rw q (
        refused refl refl
          (λ (i, h, full, c, a). absurd (let full' = rw (← input_inj h, q) at full in cc)))
    | inr q ↦
        let o = deps.service.get_query_type input.query input.params in
        rw q (
          Outcome-map (classification deps input o)
            (calls_first (classified input.query input.params ∷ []) (classification deps input o))
            refl refl (λ (h, a). (input, refl, q, h, a))
            (λ (i, h, full, c, a).
              subst
                (λ z.
                  (deps.service.get_query_type z.query z.params ≡ inr read_only) × EstimateAllows z)
                (sym (input_inj h)) (c, a))
            (classification_lem input o))
  ]

  -- read-cypher executes a statement exactly once if the request decodes to a query that is not
  -- empty, that the server classifies as read-only, and that the guard on estimated rows allows; for
  -- every other request it executes nothing, and its reply holds no rows.
  pub read_cypher_gate :
      (request : Str ⊎ ReadCypherInput)
      → Outcome (Admitted request) (handle_read_cypher (inr deps) request)
  unfolding handle_read_cypher
  read_cypher_gate request = bound_lem request
