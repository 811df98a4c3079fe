-- ===== src/Tools/Custom/Typed.antt =====
-- The types of the values that the parameters of a custom tool are bound to.
use neo4j_mcp_canary.Graphutil.Filters.{is_null}
use neo4j_mcp_canary.Prelude.{
  ℕ, ℤ, Bool, true, false, ◌&&◌, ◌||◌, not, List, [], ◌∷◌, ◌⊎◌, inl, inr, Option, none, some, ◌≡◌,
  refl, sym, Bool-cases, Memᴰ, some_inj,
}
use mathlib.Core.Path.{subst}
use neo4j_mcp_canary.Text.{Str, codes, ◌==s◌}
use neo4j_mcp_canary.Text.Laws.{==s_iff}
use neo4j_mcp_canary.Graphutil.Value.{Value, null, bool, int, float, str, Params, lookup}
use neo4j_mcp_canary.Config.CustomTools.{
  CustomToolParam, CustomTool, Floats, coerce_custom_param, coerce_string, coerce_boolean,
  coerce_integer, coerce_number, validate_custom_tool,
}
use neo4j_mcp_canary.Config.CustomTools.Valid.{validate_custom_tool_lem}
use neo4j_mcp_canary.Tools.Custom.{
  BuildError, same_value, bound_value, omitted, chosen, has_no_choices, enum_contains, build_params,
}
use neo4j_mcp_canary.Tools.Custom.Bound.{bind_params_bound, build_known_ok}

-- The values of a declared type.
pub data HasType : Str → Value → Type 0 where
  of_string : (s : Str) → HasType (codes "string") (str s)
  of_boolean : (b : Bool) → HasType (codes "boolean") (bool b)
  of_integer : (n : ℤ) → HasType (codes "integer") (int n)
  of_number : (f : ℕ) → HasType (codes "number") (float f)

value_inj : {v w : Value} → ◌≡◌ {A = BuildError ⊎ Value} (inr v) (inr w) → v ≡ w
value_inj h = cc

coerce_string-HasType : (raw v : Value) → coerce_string raw ≡ some v → HasType (codes "string") v
coerce_string-HasType (str s) v h = subst (HasType (codes "string")) (some_inj h) (of_string s)
coerce_string-HasType raw v h = absurd (cc)

coerce_boolean-HasType : (raw v : Value) → coerce_boolean raw ≡ some v → HasType (codes "boolean") v
coerce_boolean-HasType (bool b) v h = subst (HasType (codes "boolean")) (some_inj h) (of_boolean b)
coerce_boolean-HasType raw v h = absurd (cc)

either : (a b : Bool) → (not a && not b) ≡ false → (a ≡ true) ⊎ (b ≡ true)
either true b h = inl refl
either false true h = inr refl
either false false h = absurd (cc)

module _ (floats : Floats) where
  coerce_integer-HasType :
      (raw v : Value) → coerce_integer floats raw ≡ some v → HasType (codes "integer") v
  coerce_integer-HasType (int n) v h = subst (HasType (codes "integer")) (some_inj h) (of_integer n)
  coerce_integer-HasType (float f) v h =
      elim (Bool-cases (floats.equal f (floats.of_int (floats.to_int f)))) [
        | inl e ↦
            subst (HasType (codes "integer")) (some_inj (rw e at h)) (of_integer (floats.to_int f))
        | inr e ↦ absurd (let h' = rw e at h in cc)
      ]
  coerce_integer-HasType raw v h = absurd (cc)

  coerce_number-HasType :
      (raw v : Value) → coerce_number floats raw ≡ some v → HasType (codes "number") v
  coerce_number-HasType (int n) v h =
      subst (HasType (codes "number")) (some_inj h) (of_number (floats.of_int n))
  coerce_number-HasType (float f) v h = subst (HasType (codes "number")) (some_inj h) (of_number f)
  coerce_number-HasType raw v h = absurd (cc)

  -- Coercion gives a value of the type.
  coerce-HasType :
      (t : Str) (raw v : Value) → coerce_custom_param floats t raw ≡ some v → HasType t v
  unfolding coerce_custom_param
  coerce-HasType t raw v h =
      let cast = λ (u : Str) (e : (t ==s u) ≡ true) (x : HasType u v).
        subst (λ w. HasType w v) (sym ((==s_iff t u).0 e)) x in
      elim (Bool-cases (t ==s codes "string")) [
        | inl e ↦ cast (codes "string") e (coerce_string-HasType raw v (rw e at h))
        | inr e1 ↦ elim (Bool-cases (t ==s codes "boolean")) [
          | inl e ↦ cast (codes "boolean") e (coerce_boolean-HasType raw v (rw (e1, e) at h))
          | inr e2 ↦ elim (Bool-cases (t ==s codes "integer")) [
            | inl e ↦ cast (codes "integer") e (coerce_integer-HasType raw v (rw (e1, e2, e) at h))
            | inr e3 ↦ elim (Bool-cases (t ==s codes "number")) [
              | inl e ↦
                  cast (codes "number") e (coerce_number-HasType raw v (rw (e1, e2, e3, e) at h))
              | inr e4 ↦ absurd (let h' = rw (e1, e2, e3, e4) at h in cc)
            ]
          ]
        ]
      ]

  -- A value is that of a choice, coerced to the declared type.
  abbrev pub IsChoice : Str → List Value → Value → Type 0
  IsChoice t choices v =
      (e : Value) × (c : Value) × Memᴰ e choices
      × (coerce_custom_param floats t e ≡ some c)
      × (same_value floats c v ≡ true)

  IsChoice-later :
      (t : Str) (e v : Value) (es : List Value) → IsChoice t es v → IsChoice t (e ∷ es) v
  IsChoice-later t e v es (x, c, m, coerced, same) = (x, c, Memᴰ.tail m, coerced, same)

  -- A choice that is equal, or one further on.
  IsChoice-here :
      (t : Str) (e v : Value) (es : List Value) (o : Option Value)
      → coerce_custom_param floats t e ≡ o
      → (enum_contains floats t es v ≡ true → IsChoice t es v)
      → (elim o [
        | none ↦ enum_contains floats t es v
        | some c ↦ same_value floats c v || enum_contains floats t es v
      ])
        ≡ true
      → IsChoice t (e ∷ es) v
  IsChoice-here t e v es none q later h = IsChoice-later t e v es (later h)
  IsChoice-here t e v es (some c) q later h = elim (Bool-cases (same_value floats c v)) [
    | inl s ↦ (e, c, Memᴰ.head refl, q, s)
    | inr s ↦ IsChoice-later t e v es (later (rw s at h))
  ]

  enum_contains-IsChoice :
      (t : Str) (choices : List Value) (v : Value)
      → enum_contains floats t choices v ≡ true
      → IsChoice t choices v
  unfolding enum_contains
  enum_contains-IsChoice t [] v h = absurd (cc)
  enum_contains-IsChoice t (e ∷ es) v h =
      IsChoice-here t e v es _ refl (enum_contains-IsChoice t es v) h

  no_choices : (choices : List Value) → has_no_choices choices ≡ true → choices ≡ []
  no_choices [] h = refl
  no_choices (e ∷ es) h = absurd (cc)

  -- A value of the declared type, and one of the choices if there are any.
  abbrev pub Chosen : CustomToolParam → Value → Type 0
  Chosen p v = HasType p.param_type v × ((p.choices ≡ []) ⊎ IsChoice p.param_type p.choices v)

  IsChoice-of :
      (p : CustomToolParam) (v : Value)
      → (has_no_choices p.choices ≡ true) ⊎ (enum_contains floats p.param_type p.choices v ≡ true)
      → (p.choices ≡ []) ⊎ IsChoice p.param_type p.choices v
  IsChoice-of p v (inl h) = inl (no_choices p.choices h)
  IsChoice-of p v (inr h) = inr (enum_contains-IsChoice p.param_type p.choices v h)

  -- No value, for a parameter that is optional and has no default.
  abbrev pub Absent : CustomToolParam → Value → Type 0
  Absent p v = (v ≡ null) × (p.required ≡ false) × (is_null p.default_value ≡ true)

  chosen_lem :
      (p : CustomToolParam) (raw v : Value) (o : Option Value)
      → coerce_custom_param floats p.param_type raw ≡ o
      → chosen floats p o ≡ inr v
      → Chosen p v
  chosen_lem p raw v none e h = absurd (cc)
  chosen_lem p raw v (some w) e h =
      elim (Bool-cases
        (not (has_no_choices p.choices) && not (enum_contains floats p.param_type p.choices w))) [
          | inl b ↦ absurd (let h' = rw b at h in cc)
          | inr b ↦
              subst (Chosen p) (value_inj (rw b at h))
                (coerce-HasType p.param_type raw w e, IsChoice-of p w (either _ _ b))
        ]

  omitted_lem :
      (p : CustomToolParam) (v : Value) → omitted floats p ≡ inr v → Absent p v ⊎ Chosen p v
  unfolding omitted
  omitted_lem p v h = elim (Bool-cases (is_null p.default_value)) [
    | inr e ↦ inr (chosen_lem p p.default_value v _ refl (rw e at h))
    | inl e ↦ elim (Bool-cases p.required) [
      | inl r ↦ absurd (let h' = rw (e, r) at h in cc)
      | inr r ↦ inl (sym (value_inj (rw (e, r) at h)), r, e)
    ]
  ]

  bound_value_lem :
      (p : CustomToolParam) (o : Option Value) (v : Value)
      → bound_value floats p o ≡ inr v
      → Absent p v ⊎ Chosen p v
  unfolding bound_value
  bound_value_lem p none v h = omitted_lem p v h
  bound_value_lem p (some raw) v h = elim (Bool-cases (is_null raw)) [
    | inl e ↦ omitted_lem p v (rw e at h)
    | inr e ↦ inr (chosen_lem p raw v _ refl (rw e at h))
  ]

  -- When the definition of a custom tool has no problem and its arguments are accepted, every
  -- parameter is bound: to a value of its declared type, one of its choices if it lists any, or, if it
  -- is neither required nor has a default, possibly to null.
  pub build_params_typed :
      (def : CustomTool) (args out : Params)
      → validate_custom_tool floats def ≡ []
      → build_params floats def args ≡ inr out
      → (p : CustomToolParam) → Memᴰ p def.params
      → (v : Value) × (lookup p.name out ≡ some v) × (Absent p v ⊎ Chosen p v)
  unfolding build_params
  build_params_typed def args out valid h p m =
      let bound = build_known_ok floats def args out _ h in
      let distinct = (validate_custom_tool_lem floats def valid).0 in
      let (v, value, at) = bind_params_bound floats def.params args [] out bound distinct p m in
      (v, at, bound_value_lem p _ v value)
