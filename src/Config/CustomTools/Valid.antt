-- ===== src/Config/CustomTools/Valid.antt =====
-- What a tool definition without problems is like.
use neo4j_mcp_canary.Prelude.{
  ℕ, suc, Bool, true, false, List, [], ◌∷◌, ◌++◌, ◌≡◌, refl, sym, ap, ◌∙◌, inl, inr, Bool-cases,
  not-false, or_right,
}
use neo4j_mcp_canary.Text.{Str, ◌==s◌, contains}
use neo4j_mcp_canary.Text.Laws.{==s_iff, ==s_refl}
use neo4j_mcp_canary.Config.CustomTools.{
  CustomToolParam, CustomTool, Floats, ToolProblem, problem_if, check_param, check_params,
  param_names, check_references, check_declared, statement_references, check_head,
  validate_custom_tool, undeclared, duplicate_param, unreferenced,
}

pub both_nil : {A : Type 0} (xs ys : List A) → xs ++ ys ≡ [] → (xs ≡ []) × (ys ≡ [])
both_nil [] ys h = (refl, h)
both_nil (x ∷ xs) ys h = absurd (cc)

no_problem : (b : Bool) (p : ToolProblem) → problem_if b p ≡ [] → b ≡ false
no_problem true p h = absurd (cc)
no_problem false p h = refl

-- No name occurs twice.
abbrev pub Distinct : List Str → Type 0
Distinct [] = Unit
Distinct (n ∷ ns) = (contains ns n ≡ false) × Distinct ns

declared_lem :
    (refs ns : List Str) (n : Str)
    → check_declared refs ns ≡ []
    → contains ns n ≡ true
    → contains refs n ≡ true
unfolding check_declared contains
declared_lem refs [] n h m = absurd (cc)
declared_lem refs (k ∷ ns) n h m =
    let (first, rest) = both_nil _ (check_declared refs ns) h in
    elim (Bool-cases (k ==s n)) [
      | inl e ↦
          ap (contains refs) (sym ((==s_iff k n).0 e))
          ∙ not-false _ (no_problem _ (unreferenced k) first)
      | inr e ↦ declared_lem refs ns n rest (rw e at m)
    ]

references_lem :
    (names seen refs : List Str) (n : Str)
    → check_references names seen refs ≡ []
    → contains seen n ≡ false
    → contains refs n ≡ true
    → contains names n ≡ true
unfolding check_references contains
references_lem names seen [] n h s m = absurd (cc)
references_lem names seen (k ∷ refs) n h s m = elim (Bool-cases (contains seen k)) [
  | inl e ↦ elim (Bool-cases (k ==s n)) [
    | inl q ↦ absurd (let bad = rw ((==s_iff k n).0 q, s) at e in cc)
    | inr q ↦ references_lem names seen refs n (rw e at h) s (rw q at m)
  ]
  | inr e ↦
      let (first, rest) = both_nil _ _ (rw e at h) in
      elim (Bool-cases (k ==s n)) [
        | inl q ↦
            ap (contains names) (sym ((==s_iff k n).0 q))
            ∙ not-false _ (no_problem _ (undeclared k) first)
        | inr q ↦ references_lem names (k ∷ seen) refs n rest (rw (q, s)) (rw q at m)
      ]
]

bool_eq : (a b : Bool) → (a ≡ true → b ≡ true) → (b ≡ true → a ≡ true) → a ≡ b
bool_eq true b f g = sym (f refl)
bool_eq false true f g = g refl
bool_eq false false f g = refl

Distinct-params :
    (floats : Floats) (j : ℕ) (declared : List Str) (ps : List CustomToolParam)
    → check_params floats j declared ps ≡ []
    → Distinct (param_names ps)
      × ((n : Str) → contains declared n ≡ true → contains (param_names ps) n ≡ false)
unfolding check_params check_param contains
Distinct-params floats j declared [] h = (tt, λ n m. refl)
Distinct-params floats j declared (p ∷ ps) h =
    let (first, rest) = both_nil (check_param floats j declared p) _ h in
    let (ab, _) = both_nil _ _ first in
    let (_, b) = both_nil _ _ ab in
    let fresh : contains declared p.name ≡ false = no_problem _ (duplicate_param j p.name) b in
    let (distinct, apart) = Distinct-params floats (suc j) (p.name ∷ declared) ps rest in
    (
      (apart p.name (rw (==s_refl p.name)), distinct),
      λ n m. elim (Bool-cases (p.name ==s n)) [
        | inl e ↦ absurd (let bad = rw ((==s_iff p.name n).0 e, m) at fresh in cc)
        | inr e ↦ rw e (apart n (or_right (p.name ==s n) m))
      ],
    )

-- A tool definition that validation finds nothing wrong with declares each parameter once, and its
-- statement, strings, quoted identifiers and comments aside, refers to exactly the declared ones.
pub validate_custom_tool_lem :
    (floats : Floats) (t : CustomTool)
    → validate_custom_tool floats t ≡ []
    → Distinct (param_names t.params)
      × ((n : Str)
          → contains (statement_references t.statement) n ≡ contains (param_names t.params) n)
unfolding validate_custom_tool contains
validate_custom_tool_lem floats t h =
    let names = param_names t.params in
    let refs = statement_references t.statement in
    let (abc, d) = both_nil _ (check_declared refs names) h in
    let (ab, c) = both_nil _ (check_references names [] refs) abc in
    let (a, b) = both_nil (check_head t) (check_params floats 0 [] t.params) ab in
    (
      (Distinct-params floats 0 [] t.params b).0,
      λ n.
          bool_eq (contains refs n) (contains names n) (references_lem names [] refs n c refl)
            (declared_lem refs names n d),
    )
