-- ===== src/Cypher/SchemaDdl/Accepts.antt =====
-- Which requests create-constraint turns into a statement, and what the statement names.
use mathlib.Core.Path.{subst}
use neo4j_mcp_canary.Prelude.{
  true, false, ◌||◌, ◌==◌, List, [], ◌++◌, ◌∷◌, ◌≡◌, ◌≢◌, ◌⊎◌, ◌↔◌, inl, inr, Option, none, some,
  refl, ap, Bool-cases, length,
}
use neo4j_mcp_canary.Text.{Str, codes, ◌==s◌}
use neo4j_mcp_canary.Text.Laws.{==s_iff}
use neo4j_mcp_canary.Graphutil.Quote.{quote_identifier}
use neo4j_mcp_canary.Graphutil.Quote.ReadBack.{read_identifier, read-quote_identifier}
use neo4j_mcp_canary.Cypher.SchemaDdl.{
  SchemaError, CreateConstraintInput, entity_pattern, has_no_property, check_properties,
  constraint_statement, requirement, chosen_name, after_properties, after_pattern, build_constraint,
}

-- A node with a label alone, or a relationship with a type alone.
abbrev pub NamesEntity : Str → Str → Str → Type 0
NamesEntity entity_type label relationship_type =
    ((entity_type ≡ codes "NODE") × ((label ==s []) ≡ false) × ((relationship_type ==s []) ≡ true))
    ⊎ ((entity_type ≡ codes "RELATIONSHIP")
        × ((relationship_type ==s []) ≡ false)
        × ((label ==s []) ≡ true))

-- The properties that the type of a constraint asks for: exactly one, or at least one.
abbrev pub FitsProperties : Str → List Str → Type 0
FitsProperties constraint_type properties =
    ((constraint_type ≡ codes "PROPERTY_EXISTENCE") × ((length properties == 1) ≡ true))
    ⊎ (((constraint_type ≡ codes "UNIQUENESS") ⊎ (constraint_type ≡ codes "KEY"))
        × (has_no_property properties ≡ false))

entity_ok : (t l r : Str) (p : Str × Str) → entity_pattern t l r ≡ inr p → NamesEntity t l r
unfolding entity_pattern
entity_ok t l r p h = elim (Bool-cases (t ==s codes "NODE")) [
  | inl a ↦ elim (Bool-cases (l ==s [])) [
    | inl b ↦ absurd (let bad = rw (a, b) at h in cc)
    | inr b ↦ elim (Bool-cases (r ==s [])) [
      | inl c ↦ inl ((==s_iff _ _).0 a, b, c)
      | inr c ↦ absurd (let bad = rw (a, b, c) at h in cc)
    ]
  ]
  | inr a ↦ elim (Bool-cases (t ==s codes "RELATIONSHIP")) [
    | inl d ↦ elim (Bool-cases (r ==s [])) [
      | inl b ↦ absurd (let bad = rw (a, d, b) at h in cc)
      | inr b ↦ elim (Bool-cases (l ==s [])) [
        | inl c ↦ inr ((==s_iff _ _).0 d, b, c)
        | inr c ↦ absurd (let bad = rw (a, d, b, c) at h in cc)
      ]
    ]
    | inr d ↦ absurd (let bad = rw (a, d) at h in cc)
  ]
]

entity_of : (t l r : Str) → NamesEntity t l r → (p : Str × Str) × (entity_pattern t l r ≡ inr p)
unfolding entity_pattern ◌==s◌
entity_of t l r (inl (a, b, c)) = rw (a, b, c) (_, refl)
entity_of t l r (inr (a, b, c)) = rw (a, b, c) (_, refl)

properties_ok : (t : Str) (ps : List Str) → check_properties t ps ≡ none → FitsProperties t ps
unfolding check_properties
properties_ok t ps h = elim (Bool-cases (t ==s codes "PROPERTY_EXISTENCE")) [
  | inl a ↦ elim (Bool-cases (length ps == 1)) [
    | inl b ↦ inl ((==s_iff _ _).0 a, b)
    | inr b ↦ absurd (let bad = rw (a, b) at h in cc)
  ]
  | inr a ↦ elim (Bool-cases (has_no_property ps)) [
    | inl b ↦ elim (Bool-cases (t ==s codes "UNIQUENESS" || t ==s codes "KEY")) [
      | inl c ↦ absurd (let bad = rw (a, c, b) at h in cc)
      | inr c ↦ absurd (let bad = rw (a, c) at h in cc)
    ]
    | inr b ↦ elim (Bool-cases (t ==s codes "UNIQUENESS")) [
      | inl c ↦ inr (inl ((==s_iff _ _).0 c), b)
      | inr c ↦ elim (Bool-cases (t ==s codes "KEY")) [
        | inl d ↦ inr (inr ((==s_iff _ _).0 d), b)
        | inr d ↦ absurd (let bad = rw (a, c, d) at h in cc)
      ]
    ]
  ]
]

properties_of : (t : Str) (ps : List Str) → FitsProperties t ps → check_properties t ps ≡ none
unfolding check_properties ◌==s◌
properties_of t ps (inl (a, b)) = rw (a, b) refl
properties_of t ps (inr (inl a, b)) = rw (a, b) refl
properties_of t ps (inr (inr a, b)) = rw (a, b) refl

-- The statement of a name: CREATE CONSTRAINT, and a quotation that reads back as the name.
abbrev pub Names : Str → Str → Type 0
Names name text =
    (q : Str) × (rest : Str) × (text ≡ codes "CREATE CONSTRAINT " ++ q)
    × (read_identifier q ≡ some (name, rest))

statement_Names :
    (input : CreateConstraintInput) (name : Str) (p : Str × Str)
    → Names name (constraint_statement input name p)
unfolding constraint_statement
statement_Names input name (pattern, v) =
    let rest =
      codes " IF NOT EXISTS FOR " ++ (pattern ++ (codes " REQUIRE " ++ requirement input v)) in
    (quote_identifier name ++ rest, rest, refl, read-quote_identifier name rest refl)

pair_inj : {r s : Str × Str} → ◌≡◌ {A = SchemaError ⊎ (Str × Str)} (inr r) (inr s) → r ≡ s
pair_inj {r = r} e = ap (λ o. elim o [ inl x ↦ r | inr z ↦ z ]) e

-- The name that is given, unless it is empty.
abbrev pub IsNameFor : Str → Str → Str → Type 0
IsNameFor generated given name =
    ((given ≡ []) × (name ≡ generated)) ⊎ ((given ≢ []) × (name ≡ given))

chosen_name-IsNameFor :
    (generated given : Str) → IsNameFor generated given (chosen_name generated given)
unfolding ◌==s◌
chosen_name-IsNameFor generated [] = inl (refl, refl)
chosen_name-IsNameFor generated (c ∷ s) = inr (λ e. absurd (cc), refl)

module _ (generated : Str) (input : CreateConstraintInput) where
  -- The request has a statement for its own name, or for the generated one.
  abbrev pub Built : Str × Str → Type 0
  Built (name, text) = IsNameFor generated input.name name × Names name text

  properties_lem :
      (p : Str × Str) (o : Option SchemaError) (r : Str × Str)
      → after_properties generated input p o ≡ inr r
      → (o ≡ none) × Built r
  properties_lem p (some e) r h = absurd (cc)
  properties_lem p none r h =
      let name = chosen_name generated input.name in
      let built : Built (name, constraint_statement input name p) =
        (chosen_name-IsNameFor generated input.name, statement_Names input name p) in
      (refl, subst Built (pair_inj h) built)

  pattern_lem :
      (o : SchemaError ⊎ (Str × Str)) (r : Str × Str)
      → after_pattern generated input o ≡ inr r
      → ((p : Str × Str) × (o ≡ inr p))
        × (check_properties input.constraint_type input.properties ≡ none)
        × Built r
  pattern_lem (inl e) r h = absurd (cc)
  pattern_lem (inr p) r h =
      let (none_wrong, built) = properties_lem p _ r h in ((p, refl), none_wrong, built)

  -- create-constraint builds a statement exactly for a request that names a label of a node alone, or
  -- a type of a relationship alone, with exactly one property for PROPERTY_EXISTENCE and at least one
  -- for UNIQUENESS and KEY. The statement creates the constraint under the name of the request, or,
  -- if that is empty, under the generated one: what stands quoted in it reads back as that name,
  -- whatever characters it has.
  pub build_constraint_lem :
      (((r : Str × Str) × (build_constraint generated input ≡ inr r)) ↔ (
        NamesEntity input.entity_type input.label input.relationship_type
        × FitsProperties input.constraint_type input.properties))
      × ((r : Str × Str) → build_constraint generated input ≡ inr r → Built r)
  unfolding build_constraint
  build_constraint_lem = (
    (
      λ (r, h).
          let ((p, e), none_wrong, built) = pattern_lem _ r h in
          (entity_ok _ _ _ p e, properties_ok _ _ none_wrong),
      λ (entity, fits).
          let (p, e) = entity_of _ _ _ entity in
          let none_wrong = properties_of _ _ fits in rw (e, none_wrong) (_, refl),
    ),
    λ r h. let ((p, e), none_wrong, built) = pattern_lem _ r h in built,
  )
