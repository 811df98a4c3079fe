-- ===== src/Cypher/WriteCypher/Gate.antt =====
-- When write-cypher runs a statement, and what its reply then is.
use mathlib.Core.Path.{subst}
use neo4j_mcp_canary.Prelude.{false, [], ◌∷◌, ◌≡◌, ◌⊎◌, inl, inr, refl, sym, ap, Bool-cases}
use neo4j_mcp_canary.Text.{Str, codes, ◌==s◌}
use neo4j_mcp_canary.Database.Keyword.{first_keyword}
use neo4j_mcp_canary.Cypher.ReadCypher.{ExecuteError}
use neo4j_mcp_canary.Cypher.WriteCypher.{
  WriteDependencies, WriteCypherInput, WriteReply, write_rows, WriteRun, write_failed,
  encoded_write, formatted_write, written, executed_write, bound_write, handle_write_cypher,
}

module _ {R : Type 0} (deps : WriteDependencies R) where
  -- A query that is not empty and starts with neither EXPLAIN nor PROFILE.
  abbrev pub Runs : WriteCypherInput → Type 0
  Runs input =
      ((input.query ==s []) ≡ false)
      × ((first_keyword input.query ==s codes "EXPLAIN") ≡ false)
      × ((first_keyword input.query ==s codes "PROFILE") ≡ false)

  -- The rows of a reply are the encoded result of an execution that succeeded.
  abbrev pub Delivers : ExecuteError ⊎ R → WriteReply → Type 0
  Delivers outcome reply =
      (response json : Str)
      → reply ≡ write_rows response json
      → (result : R) × (outcome ≡ inr result)
        × (deps.result_to_json result ≡ inr json)
        × (deps.encode_output json ≡ inr response)

  -- One execution of the decoded query, whose result the reply delivers, or none, and no rows.
  pub data WriteOutcome (request : Str ⊎ WriteCypherInput) (run : WriteRun) : Type 0 where
    wrote :
        (input : WriteCypherInput)
        → request ≡ inr input
        → Runs input
        → run.0 ≡ executed_write input.query input.params deps.max_rows deps.max_bytes ∷ []
        → Delivers (deps.execute_write input.query input.params deps.max_rows deps.max_bytes) run.1
        → WriteOutcome request run
    rejected :
        ((input : WriteCypherInput) → request ≡ inr input → ¬ Runs input)
        → run.0 ≡ []
        → ((response json : Str) → ¬ (run.1 ≡ write_rows response json))
        → WriteOutcome request run

  encoded_lem :
      (json : Str) (o : Str ⊎ Str) (response json' : Str)
      → encoded_write deps json o ≡ write_rows response json'
      → (json ≡ json') × (o ≡ inr response)
  encoded_lem json (inl e) response json' h = absurd (cc)
  encoded_lem json (inr r) response json' h = (cc, cc)

  formatted_lem :
      (o : Str ⊎ Str) (response json : Str)
      → formatted_write deps o ≡ write_rows response json
      → (o ≡ inr json) × (deps.encode_output json ≡ inr response)
  formatted_lem (inl e) response json h = absurd (cc)
  formatted_lem (inr j) response json h =
      let (same, enc) = encoded_lem j (deps.encode_output j) response json h in
      (ap (λ x. inr x) same, rw (← same) enc)

  failed_lem :
      (e : ExecuteError) (response json : Str) → ¬ (write_failed e ≡ write_rows response json)
  unfolding write_failed
  failed_lem e response json h = elim (Bool-cases e.is_deadline_exceeded) [
    | inl a ↦ let bad = rw a at h in cc
    | inr a ↦ elim (Bool-cases e.is_canceled) [
      | inl b ↦ let bad = rw (a, b) at h in cc
      | inr b ↦ let bad = rw (a, b) at h in cc
    ]
  ]

  written_lem : (o : ExecuteError ⊎ R) → Delivers o (written deps o)
  written_lem (inl e) response json h = absurd (failed_lem e response json h)
  written_lem (inr r) response json h =
      let (a, b) = formatted_lem (deps.result_to_json r) response json h in (r, refl, a, b)

  write_input_inj :
      {i j : WriteCypherInput} → ◌≡◌ {A = Str ⊎ WriteCypherInput} (inr i) (inr j) → i ≡ j
  write_input_inj {i = i} e = ap (λ o. elim o [ inl x ↦ i | inr z ↦ z ]) e

  -- What makes a decoded query run makes no other one run.
  only :
      (input : WriteCypherInput)
      → ¬ Runs input
      → (i : WriteCypherInput) → ◌≡◌ {A = Str ⊎ WriteCypherInput} (inr input) (inr i)
      → ¬ Runs i
  only input deny i h runs = deny (subst Runs (sym (write_input_inj h)) runs)

  bound_lem : (request : Str ⊎ WriteCypherInput) → WriteOutcome request (bound_write deps request)
  bound_lem (inl e) = rejected (λ i h runs. absurd (cc)) refl (λ r j h. absurd (cc))
  bound_lem (inr input) = elim (Bool-cases (input.query ==s [])) [
    | inl a ↦ rw a (rejected (only input (λ (full, e, p). absurd (cc))) refl (λ r j h. absurd (cc)))
    | inr a ↦ elim (Bool-cases (first_keyword input.query ==s codes "EXPLAIN")) [
      | inl b ↦
          rw (a, b)
            (rejected (only input (λ (full, e, p). absurd (cc))) refl (λ r j h. absurd (cc)))
      | inr b ↦ elim (Bool-cases (first_keyword input.query ==s codes "PROFILE")) [
        | inl c ↦
            rw (a, b, c)
              (rejected (only input (λ (full, e, p). absurd (cc))) refl (λ r j h. absurd (cc)))
        | inr c ↦ rw (a, b, c) (wrote input refl (a, b, c) refl (written_lem _))
      ]
    ]
  ]

  -- write-cypher executes the statement of a request exactly once, with its parameters and the
  -- configured caps, when the request decodes to a query that is not empty and whose first keyword is
  -- neither EXPLAIN nor PROFILE, and executes nothing otherwise. Its reply has rows only when the
  -- execution gave a result, and then they are that result, formatted and encoded.
  pub write_cypher_gate :
      (request : Str ⊎ WriteCypherInput)
      → WriteOutcome request (handle_write_cypher (inr deps) request)
  unfolding handle_write_cypher
  write_cypher_gate request = bound_lem request
