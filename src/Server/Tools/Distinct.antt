-- ===== src/Server/Tools/Distinct.antt =====
-- The names of the tools that the server can register.
use neo4j_mcp_canary.Prelude.{
  ℕ, suc, Bool, true, false, ◌&&◌, ◌||◌, not, List, [], ◌∷◌, ◌++◌, map, map-append, none, ◌≡◌, refl,
  sym, ap, ◌∙◌, inl, inr, Bool-cases, if◌then◌else◌, or_right,
}
use mathlib.Core.Path.{subst}
use neo4j_mcp_canary.Text.{Str, ◌==s◌, contains}
use neo4j_mcp_canary.Text.Laws.{==s_iff, ==s_refl}
use neo4j_mcp_canary.Config.CustomTools.{
  CustomTool, Floats, check_tools, validate_custom_tool, located, ConfigProblem,
}
use neo4j_mcp_canary.Config.CustomTools as Config
use neo4j_mcp_canary.Config.CustomTools.Valid.{Distinct, both_nil}
use neo4j_mcp_canary.Server.Tools.{
  ToolConfig, names_of, custom_definition, first_collision, validate_custom_tools,
  get_all_tools_defs, all_categories,
}
use neo4j_mcp_canary.Server.Tools.Builtin.{builtin_tools_defs}

abbrev custom_names : List CustomTool → List Str
custom_names ts = names_of (map custom_definition ts)

contains-append :
    (xs ys : List Str) (n : Str) → contains (xs ++ ys) n ≡ (contains xs n || contains ys n)
unfolding contains
contains-append [] ys n = refl
contains-append (x ∷ xs) ys n = elim (Bool-cases (x ==s n)) [
  | inl e ↦ rw e
  | inr e ↦ rw e (contains-append xs ys n)
]

Distinct-append :
    (xs ys : List Str)
    → Distinct xs
    → Distinct ys
    → ((n : Str) → contains ys n ≡ true → contains xs n ≡ false)
    → Distinct (xs ++ ys)
unfolding contains
Distinct-append [] ys dx dy h = dy
Distinct-append (x ∷ xs) ys (fresh, dx) dy h = (
  contains-append xs ys x
      ∙ rw fresh (elim (Bool-cases (contains ys x)) [
        | inl e ↦ absurd (let h' = h x e in let bad = rw (==s_refl x) at h' in cc)
        | inr e ↦ e
      ]),
  Distinct-append xs ys dx dy (λ n m. elim (Bool-cases (x ==s n)) [
    | inl e ↦ absurd (let h' = h n m in let bad = rw e at h' in cc)
    | inr e ↦ let h' = h n m in rw e at h'
  ]),
)

no_duplicate :
    (i : ℕ) (seen : List Str) (t : CustomTool)
    → (if contains seen t.name then Config.duplicate_tool i t.name ∷ [] else []) ≡ []
    → contains seen t.name ≡ false
no_duplicate i seen t h = elim (Bool-cases (contains seen t.name)) [
  | inl e ↦ absurd (let bad = rw e at h in cc)
  | inr e ↦ e
]

Distinct-tools :
    (floats : Floats) (i : ℕ) (seen : List Str) (ts : List CustomTool)
    → check_tools floats i seen ts ≡ []
    → Distinct (custom_names ts)
      × ((n : Str) → contains seen n ≡ true → contains (custom_names ts) n ≡ false)
unfolding check_tools contains
Distinct-tools floats i seen [] h = (tt, λ n m. refl)
Distinct-tools floats i seen (t ∷ ts) h =
    let (first, rest) = both_nil _ (check_tools floats (suc i) (t.name ∷ seen) ts) h in
    let (_, b) = both_nil (located i t.name (validate_custom_tool floats t)) _ first in
    let fresh : contains seen t.name ≡ false = no_duplicate i seen t b in
    let (distinct, apart) = Distinct-tools floats (suc i) (t.name ∷ seen) ts rest in
    (
      (apart t.name (rw (==s_refl t.name)), distinct),
      λ n m. elim (Bool-cases (t.name ==s n)) [
        | inl e ↦ absurd (let bad = rw ((==s_iff t.name n).0 e, m) at fresh in cc)
        | inr e ↦ rw e (apart n (or_right (t.name ==s n) m))
      ],
    )

-- Validated custom tools have no built-in name.
apart_from_builtin :
    (names : List Str) (ts : List CustomTool) (n : Str)
    → first_collision names ts ≡ none
    → contains (custom_names ts) n ≡ true
    → contains names n ≡ false
unfolding first_collision contains
apart_from_builtin names [] n h m = absurd (cc)
apart_from_builtin names (t ∷ ts) n h m = elim (Bool-cases (contains names t.name)) [
  | inl e ↦ absurd (let bad = rw e at h in cc)
  | inr e ↦ elim (Bool-cases (contains all_categories t.category)) [
    | inl e' ↦ absurd (let bad = rw (e, e') at h in cc)
    | inr e' ↦ elim (Bool-cases (t.name ==s n)) [
      | inl q ↦ ap (contains names) (sym ((==s_iff t.name n).0 q)) ∙ e
      | inr q ↦ apart_from_builtin names ts n (rw (e, e') at h) (rw q at m)
    ]
  ]
]

-- Whether no name occurs twice, by computation.
abbrev distinct : List Str → Bool
distinct [] = true
distinct (n ∷ ns) = not (contains ns n) && distinct ns

Distinct-of_distinct : (ns : List Str) → distinct ns ≡ true → Distinct ns
Distinct-of_distinct [] h = tt
Distinct-of_distinct (n ∷ ns) h = elim (Bool-cases (contains ns n)) [
  | inl e ↦ absurd (let bad = rw e at h in cc)
  | inr e ↦ (e, Distinct-of_distinct ns (rw e at h))
]

builtin-Distinct : Distinct (names_of builtin_tools_defs)
unfolding contains ◌==s◌
builtin-Distinct = Distinct-of_distinct (names_of builtin_tools_defs) refl

-- When both validations of the custom tools find nothing, the one of the configuration and the one of
-- the server, no two tools that the server can register have the same name, so that none replaces
-- another when they are registered.
pub all_tools-Distinct :
    (floats : Floats) (config : ToolConfig)
    → Config.validate_custom_tools floats config.custom_tools ≡ []
    → validate_custom_tools builtin_tools_defs config ≡ none
    → Distinct (names_of (get_all_tools_defs builtin_tools_defs config))
unfolding validate_custom_tools Config.validate_custom_tools get_all_tools_defs
all_tools-Distinct floats config h k =
    subst Distinct
      (sym (map-append _ builtin_tools_defs (map custom_definition config.custom_tools)))
      (Distinct-append (names_of builtin_tools_defs) (custom_names config.custom_tools)
        builtin-Distinct (Distinct-tools floats 0 [] config.custom_tools h).0
        (λ n m. apart_from_builtin (names_of builtin_tools_defs) config.custom_tools n k m))
