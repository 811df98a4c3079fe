-- ===== src/Graph/Selection.antt =====
-- Which references select anything, described by their fields.
use neo4j_mcp_canary.Prelude.{
  true, not, [], ◌∷◌, ◌≡◌, ◌⊎◌, inl, inr, some, List, ◌≢◌, Option, none, or_cases,
}
use neo4j_mcp_canary.Text.Laws.{==s_refl}
use neo4j_mcp_canary.Text.{Str, ◌==s◌}
use neo4j_mcp_canary.Graphutil.NodeRef.{NodeRef, has_predicate, is_empty}
use neo4j_mcp_canary.Graph.RelRef.{RelRef, rel_has_predicate, optional_has_predicate}

-- A reference that selects: by an id, by properties or by filters. Labels alone do not select.
abbrev pub Selects : NodeRef → Type 0
Selects r = (r.id ≢ []) ⊎ (r.match ≢ []) ⊎ (r.filters ≢ [])

abbrev pub SelectsEnd : Option NodeRef → Type 0
SelectsEnd none = ⊥
SelectsEnd (some r) = Selects r

-- The same for relationships, which an end that selects also selects. A type alone does not.
abbrev pub RelSelects : RelRef → Type 0
RelSelects r = (r.id ≢ []) ⊎ (r.match ≢ []) ⊎ (r.filters ≢ []) ⊎ SelectsEnd r.from ⊎ SelectsEnd r.to

not_blank : (s : Str) → not (s ==s []) ≡ true → s ≢ []
not_blank s h e = let bad = rw (e, ==s_refl []) at h in absurd (cc)

not_empty {ℓ} : {A : Type ℓ} (xs : List A) → not (is_empty xs) ≡ true → xs ≢ []
not_empty [] h e = absurd (cc)
not_empty (x ∷ xs) h e = absurd (cc)

pub has_predicate-Selects : (r : NodeRef) → has_predicate r ≡ true → Selects r
unfolding has_predicate
has_predicate-Selects r h = elim (or_cases _ (not (is_empty r.filters)) h) [
  | inl a ↦ elim (or_cases (not (r.id ==s [])) (not (is_empty r.match)) a) [
    | inl b ↦ inl (not_blank r.id b)
    | inr b ↦ inr (inl (not_empty r.match b))
  ]
  | inr a ↦ inr (inr (not_empty r.filters a))
]

end_Selects : (o : Option NodeRef) → optional_has_predicate o ≡ true → SelectsEnd o
end_Selects none h = absurd (cc)
end_Selects (some r) h = has_predicate-Selects r h

pub rel_has_predicate-RelSelects : (r : RelRef) → rel_has_predicate r ≡ true → RelSelects r
unfolding rel_has_predicate
rel_has_predicate-RelSelects r h = elim (or_cases _ (optional_has_predicate r.to) h) [
  | inl a ↦ elim (or_cases _ (optional_has_predicate r.from) a) [
    | inl b ↦ elim (or_cases _ (not (is_empty r.filters)) b) [
      | inl c ↦ elim (or_cases (not (r.id ==s [])) (not (is_empty r.match)) c) [
        | inl d ↦ inl (not_blank r.id d)
        | inr d ↦ inr (inl (not_empty r.match d))
      ]
      | inr c ↦ inr (inr (inl (not_empty r.filters c)))
    ]
    | inr b ↦ inr (inr (inr (inl (end_Selects r.from b))))
  ]
  | inr a ↦ inr (inr (inr (inr (end_Selects r.to a))))
]
