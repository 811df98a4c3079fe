-- ===== src/Database/Classify.antt =====
-- database/service.go: `GetQueryType`, which decides whether read-cypher may run a statement. The
-- driver is a parameter: what `neo4j.ExecuteQuery` gives for a statement, an error or a summary, if
-- there is one, of which the query type is used. So is the scrubbing of the driver's error.
use mathlib.Core.Path.{subst}
use neo4j_mcp_canary.Prelude.{
  ◌++◌, append-nil, ◌∙◌, Memᴰ, false, [], ◌∷◌, Option, none, some, ◌≡◌, ◌⊎◌, inl, inr, sym, ap,
  Bool-cases, if◌then◌else◌,
}
use neo4j_mcp_canary.Text.{Str, codes, concat, ◌==s◌}
use neo4j_mcp_canary.Graphutil.Value.{Params}
use neo4j_mcp_canary.Text.Laws.{==s_refl}
use neo4j_mcp_canary.Text.Search.{has_substring}
use neo4j_mcp_canary.Database.Keyword.{first_keyword}
use neo4j_mcp_canary.Database.Keyword.Word.{LedBy, first_keyword_of_LedBy}
use neo4j_mcp_canary.Cypher.ReadCypher.Statements.{same_of_Only, executions-Memᴰ, read_cypher-Own}
use neo4j_mcp_canary.Cypher.ReadCypher.{
  QueryType, read_only, other_type, ClassifyError, explain_unsupported, classify_failed,
  Dependencies, ReadCypherInput, executed, handle_read_cypher,
}
use neo4j_mcp_canary.Cypher.ReadCypher.Gate.{ran, refused, read_cypher_gate, input_inj}

-- What the driver answers to a statement.
abbrev pub Driver : Type 0
Driver = Str → Params → Str ⊎ Option QueryType

-- strings.Join([]string{"EXPLAIN", cypher}, " ")
abbrev pub explained : Str → Str
explained cypher = concat (codes "EXPLAIN " ∷ cypher ∷ [])

abbrev pub query_type_of : (Str → Str) → Str ⊎ Option QueryType → ClassifyError ⊎ QueryType
query_type_of scrub (inl e) =
    inl (classify_failed (concat (codes "error during GetQueryType: " ∷ scrub e ∷ [])))
query_type_of scrub (inr none) =
    inl
      (classify_failed (codes "error during GetQueryType: no summary returned for explained query"))
query_type_of scrub (inr (some t)) = inr t

-- GetQueryType
unfoldable pub get_query_type : (Str → Str) → Driver → Str → Params → ClassifyError ⊎ QueryType
get_query_type scrub driver cypher params =
    if first_keyword cypher ==s codes "PROFILE"
    then inr (other_type (codes "w"))
    else if first_keyword cypher ==s codes "EXPLAIN"
    then inl explain_unsupported
    else query_type_of scrub (driver (explained cypher) params)

-- Neither word leads the query, and the driver calls it read-only, asked with EXPLAIN in front.
abbrev pub PlainRead : Driver → Str → Params → Type 0
PlainRead driver cypher params =
    (¬ LedBy (codes "PROFILE") cypher)
    × (¬ LedBy (codes "EXPLAIN") cypher)
    × (driver (codes "EXPLAIN " ++ cypher) params ≡ inr (some read_only))

type_inj : {s t : QueryType} → ◌≡◌ {A = ClassifyError ⊎ QueryType} (inr s) (inr t) → s ≡ t
type_inj {s = s} e = ap (λ o. elim o [ inl x ↦ s | inr z ↦ z ]) e

query_type_of-read :
    (scrub : Str → Str) (o : Str ⊎ Option QueryType)
    → query_type_of scrub o ≡ inr read_only
    → o ≡ inr (some read_only)
query_type_of-read scrub (inl e) h = absurd (cc)
query_type_of-read scrub (inr none) h = absurd (cc)
query_type_of-read scrub (inr (some t)) h = ap (λ z. inr (some z)) (type_inj h)

not_led :
    (word cypher : Str)
    → has_substring cypher (codes "/*/") ≡ false
    → (first_keyword cypher ==s word) ≡ false
    → ¬ LedBy word cypher
not_led word cypher plain e led =
    let bad = rw (first_keyword_of_LedBy word cypher plain led, ==s_refl word) at e in cc

explained_lem : (cypher : Str) → explained cypher ≡ codes "EXPLAIN " ++ cypher
unfolding concat
explained_lem cypher = ap (λ t. codes "EXPLAIN " ++ t) (append-nil cypher)

get_query_type_lem :
    (scrub : Str → Str) (driver : Driver) (cypher : Str) (params : Params)
    → has_substring cypher (codes "/*/") ≡ false
    → get_query_type scrub driver cypher params ≡ inr read_only
    → PlainRead driver cypher params
unfolding get_query_type
get_query_type_lem scrub driver cypher params plain h =
    elim (Bool-cases (first_keyword cypher ==s codes "PROFILE")) [
      | inl e ↦ absurd (let h' = type_inj (rw e at h) in cc)
      | inr e ↦ elim (Bool-cases (first_keyword cypher ==s codes "EXPLAIN")) [
        | inl e' ↦ absurd (let h' = rw (e, e') at h in cc)
        | inr e' ↦ (
          not_led (codes "PROFILE") cypher plain e,
          not_led (codes "EXPLAIN") cypher plain e',
          ap (λ t. driver t params) (sym (explained_lem cypher))
              ∙ query_type_of-read scrub _ (rw (e, e') at h),
        )
      ]
    ]

-- With a service that classifies by GetQueryType, read-cypher executes nothing but the query of the
-- request, with its parameters, and that only when neither PROFILE nor EXPLAIN is the word behind the
-- leading whitespace and comments of the query, in any case, and the driver called the query read-only
-- when it was asked with EXPLAIN. It is assumed that the query has no "/*/".
pub executed_plain :
    {R : Type 0} (deps : Dependencies R) (scrub : Str → Str) (driver : Driver)
    (input : ReadCypherInput) (query : Str) (params : Params)
    → deps.service.get_query_type ≡ get_query_type scrub driver
    → has_substring input.query (codes "/*/") ≡ false
    → Memᴰ (executed query params) (handle_read_cypher (inr deps) (inr input)).0
    → (query ≡ input.query) × (params ≡ input.params) × PlainRead driver input.query input.params
executed_plain deps scrub driver input query params built plain m =
    let (q, p) =
      same_of_Only input.query query input.params params _ (read_cypher-Own deps input) m in
    elim (read_cypher_gate deps (inr input)) [
      | refused zero_times no_rows deny ↦ absurd (executions-Memᴰ query params _ m zero_times)
      | ran one_time (i, same, full, read, allowed) ↦ (
        q,
        p,
        get_query_type_lem scrub driver input.query input.params plain (
            rw (← ap (λ f. f input.query input.params) built) (
              subst (λ z. deps.service.get_query_type z.query z.params ≡ inr read_only)
                (sym (input_inj deps same)) read)),
      )
    ]
