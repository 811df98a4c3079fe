-- ===== src/Tools/Custom/Bound.antt =====
-- What the parameters of a custom tool are bound to.
use neo4j_mcp_canary.Prelude.{
  true, false, ◌||◌, List, [], ◌∷◌, ◌⊎◌, inl, inr, Option, none, some, ◌≡◌, refl, sym, ap, ◌∙◌,
  Bool-cases, Memᴰ, or_identity, or_right, is_some,
}
use mathlib.Core.List.Memᴰ
use mathlib.Core.Path.{subst}
use neo4j_mcp_canary.Text.{Str, ◌==s◌, contains}
use neo4j_mcp_canary.Text.Laws.{==s_iff, ==s_refl}
use neo4j_mcp_canary.Graphutil.Value.{Value, Params, assign, lookup}
use neo4j_mcp_canary.Config.CustomTools.{
  CustomToolParam, CustomTool, Floats, param_names, statement_references, validate_custom_tool,
}
use neo4j_mcp_canary.Config.CustomTools.Valid.{Distinct, validate_custom_tool_lem}
use neo4j_mcp_canary.Tools.Custom.{
  BuildError, bound_value, bind_param, bind_params, then_bind, build_known, build_params,
}

lookup-assign_same : (k : Str) (v : Value) (m : Params) → lookup k (assign k v m) ≡ some v
unfolding lookup assign
lookup-assign_same k v [] = rw (==s_refl k)
lookup-assign_same k v ((j, w) ∷ m) = elim (Bool-cases (k ==s j)) [
  | inl e ↦ rw (e, ==s_refl k)
  | inr e ↦ rw (e, e) (lookup-assign_same k v m)
]

lookup-assign_other :
    (n k : Str) (v : Value) (m : Params) → (n ==s k) ≡ false → lookup n (assign k v m) ≡ lookup n m
unfolding lookup assign
lookup-assign_other n k v [] h = rw h
lookup-assign_other n k v ((j, w) ∷ m) h = elim (Bool-cases (k ==s j)) [
  | inl e ↦ rw (e, h, ← (==s_iff k j).0 e, h)
  | inr e ↦ elim (Bool-cases (n ==s j)) [
    | inl q ↦ rw (e, q)
    | inr q ↦ rw (e, q) (lookup-assign_other n k v m h)
  ]
]

==s_sym : (s t : Str) → (s ==s t) ≡ (t ==s s)
==s_sym s t = elim (Bool-cases (s ==s t)) [
  | inl e ↦ rw ((==s_iff s t).0 e)
  | inr e ↦ elim (Bool-cases (t ==s s)) [
    | inl q ↦ absurd (let bad = rw ((==s_iff t s).0 q, ==s_refl s) at e in cc)
    | inr q ↦ e ∙ sym q
  ]
]

-- A successful round of the loop.
bind_ok :
    (name : Str) (params : Params) (x : BuildError ⊎ Value) (k : Params → BuildError ⊎ Params)
    (out : Params)
    → ◌≡◌ {A = BuildError ⊎ Params} (then_bind (bind_param name params x) k) (inr out)
    → (v : Value) × (x ≡ inr v) × (k (assign name v params) ≡ inr out)
bind_ok name params (inl e) k out h = absurd (cc)
bind_ok name params (inr v) k out h = (v, refl, h)

inr_inj : {a b : Params} → ◌≡◌ {A = BuildError ⊎ Params} (inr a) (inr b) → a ≡ b
inr_inj h = cc

module _ (floats : Floats) where
  -- A name that the rest of the loop does not declare keeps what it is bound to.
  bind_params_other :
      (ps : List CustomToolParam) (args params out : Params) (n : Str)
      → bind_params floats ps args params ≡ inr out
      → contains (param_names ps) n ≡ false
      → lookup n out ≡ lookup n params
  unfolding bind_params contains
  bind_params_other [] args params out n h c = ap (lookup n) (sym (inr_inj h))
  bind_params_other (p ∷ ps) args params out n h c =
      let (v, _, rest) = bind_ok p.name params _ (bind_params floats ps args) out h in
      elim (Bool-cases (p.name ==s n)) [
        | inl e ↦ absurd (let bad = rw e at c in cc)
        | inr e ↦
            bind_params_other ps args (assign p.name v params) out n rest (rw e at c)
            ∙ lookup-assign_other n p.name v params (==s_sym n p.name ∙ e)
      ]

  -- Each declared parameter is bound to its value.
  pub bind_params_bound :
      (ps : List CustomToolParam) (args params out : Params)
      → bind_params floats ps args params ≡ inr out
      → Distinct (param_names ps)
      → (p : CustomToolParam) → Memᴰ p ps
      → (v : Value) × (bound_value floats p (lookup p.name args) ≡ inr v)
        × (lookup p.name out ≡ some v)
  unfolding bind_params
  bind_params_bound [] args params out h d q m = elim m [ ]
  bind_params_bound (p ∷ ps) args params out h (fresh, d) q m =
      let (v, value, rest) = bind_ok p.name params _ (bind_params floats ps args) out h in
      elim (Memᴰ.cases_cons m) [
        | inr m' ↦ bind_params_bound ps args (assign p.name v params) out rest d q m'
        | inl same ↦
            subst
              (λ (r : CustomToolParam).
                (w : Value) × (bound_value floats r (lookup r.name args) ≡ inr w)
                × (lookup r.name out ≡ some w))
              (sym same)
              (
                v,
                value,
                bind_params_other ps args (assign p.name v params) out p.name rest fresh
                    ∙ lookup-assign_same p.name v params,
              )
      ]

  -- The loop binds the names that were bound and those that it declares.
  bind_params_names :
      (ps : List CustomToolParam) (args params out : Params)
      → bind_params floats ps args params ≡ inr out
      → (n : Str)
      → is_some (lookup n out) ≡ (is_some (lookup n params) || contains (param_names ps) n)
  unfolding bind_params contains
  bind_params_names [] args params out h n =
      ap (λ m. is_some (lookup n m)) (sym (inr_inj h))
      ∙ sym (or_identity (is_some (lookup n params)))
  bind_params_names (p ∷ ps) args params out h n =
      let (v, _, rest) = bind_ok p.name params _ (bind_params floats ps args) out h in
      bind_params_names ps args (assign p.name v params) out rest n
      ∙ elim (Bool-cases (p.name ==s n)) [
        | inl e ↦
            let bound : is_some (lookup n (assign p.name v params)) ≡ true =
              ap (λ m. is_some (lookup m (assign p.name v params))) (sym ((==s_iff p.name n).0 e))
              ∙ ap is_some (lookup-assign_same p.name v params) in
            rw (bound, e) (sym (or_right (is_some (lookup n params)) refl))
        | inr e ↦ rw (lookup-assign_other n p.name v params (==s_sym n p.name ∙ e), e)
      ]

  pub build_known_ok :
      (def : CustomTool) (args out : Params) (o : Option Str)
      → build_known floats def args o ≡ inr out
      → bind_params floats def.params args [] ≡ inr out
  build_known_ok def args out none h = h
  build_known_ok def args out (some name) h = absurd (cc)

  -- When the definition of a custom tool has no problem and its arguments are accepted, the statement
  -- is run with a value for exactly the names that its code refers to.
  pub build_params_names :
      (def : CustomTool) (args out : Params)
      → validate_custom_tool floats def ≡ []
      → build_params floats def args ≡ inr out
      → (n : Str) → is_some (lookup n out) ≡ contains (statement_references def.statement) n
  unfolding build_params lookup
  build_params_names def args out valid h n =
      let bound = build_known_ok def args out _ h in
      bind_params_names def.params args [] out bound n
      ∙ sym ((validate_custom_tool_lem floats def valid).1 n)
