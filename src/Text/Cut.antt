-- ===== src/Text/Cut.antt =====
-- Laws of cutting at a prefix and of membership in a list of texts.
use neo4j_mcp_canary.Prelude.{
  Bool, true, List, [], ◌∷◌, ◌++◌, ◌≡◌, ◌↔◌, refl, ap, ==_iff, inl, inr, Bool-cases, Memᴰ, drop,
  sym, ◌∙◌, ◌==◌, length, or_right,
}
use mathlib.Core.List.Memᴰ
use neo4j_mcp_canary.Text.{Str, ◌==s◌, has_prefix, contains}
use neo4j_mcp_canary.Text.Laws.{==s_refl, ==s_iff, has_prefix-append}
use neo4j_mcp_canary.Text.Search.{cut_prefix}

pub drop_append : (p s : Str) → drop (length p) (p ++ s) ≡ s
drop_append [] s = refl
drop_append (c ∷ p) s = drop_append p s

-- A text with the prefix is the prefix and what cutting leaves.
append-drop_of_has_prefix : (s p : Str) → has_prefix s p ≡ true → s ≡ p ++ drop (length p) s
unfolding has_prefix
append-drop_of_has_prefix s [] h = refl
append-drop_of_has_prefix [] (c ∷ p) h = absurd (cc)
append-drop_of_has_prefix (d ∷ s) (c ∷ p) h = elim (Bool-cases (d == c)) [
  | inl e ↦ rw ((==_iff d c).0 e) (ap (λ t. c ∷ t) (append-drop_of_has_prefix s p (rw e at h)))
  | inr e ↦ absurd (let h' = rw e at h in cc)
]

pub cut_prefix_append : (p s : Str) → cut_prefix (p ++ s) p ≡ (s, true)
unfolding cut_prefix
cut_prefix_append p s = rw (has_prefix-append p s, drop_append p s)

pub append_of_cut_prefix : (s p t : Str) → cut_prefix s p ≡ (t, true) → s ≡ p ++ t
unfolding cut_prefix
append_of_cut_prefix s p t h = elim (Bool-cases (has_prefix s p)) [
  | inl e ↦
      append-drop_of_has_prefix s p e ∙ ap (λ u. p ++ u) (ap (λ (x : Str × Bool). x.0) (rw e at h))
  | inr e ↦ absurd (let h' = ap (λ (x : Str × Bool). x.1) (rw e at h) in cc)
]

pub contains_iff : (xs : List Str) (s : Str) → (contains xs s ≡ true) ↔ Memᴰ s xs
unfolding contains
contains_iff [] s = (λ h. absurd (cc), λ m. elim m [ ])
contains_iff (x ∷ xs) s = (
  λ h. elim (Bool-cases (x ==s s)) [
    | inl e ↦ Memᴰ.head (sym ((==s_iff x s).0 e))
    | inr e ↦ Memᴰ.tail ((contains_iff xs s).0 (rw e at h))
  ],
  λ m. elim (Memᴰ.cases_cons m) [
    | inl e ↦ rw (e, ==s_refl x)
    | inr m' ↦ or_right (x ==s s) ((contains_iff xs s).1 m')
  ],
)
