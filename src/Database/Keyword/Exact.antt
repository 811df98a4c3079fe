-- ===== src/Database/Keyword/Exact.antt =====
-- StripLeadingWhitespaceAndComments against the description of comments.
use mathlib.Core.Path.{subst}
use neo4j_mcp_canary.Prelude.{
  ℕ, zero, suc, ◌<◌, false, [], ◌∷◌, ◌++◌, ◌≡◌, ◌≢◌, ◌↔◌, inl, inr, refl, sym, ap, ◌∙◌, arith,
  length, length-append, Bool-cases, ◌==◌, ==_iff, drop, ==_refl,
}
use neo4j_mcp_canary.Text.{Str, codes, is_space}
use neo4j_mcp_canary.Database.Keyword.{strip_leading}
use neo4j_mcp_canary.Text.Search.{has_substring}
use neo4j_mcp_canary.Database.Keyword.Stripped.{
  StartsCode, Stripped, ended, space, line, last_line, block, open_block, code,
}
use neo4j_mcp_canary.Database.Keyword.Cases.{head_eq, newline_cases, close_cases}
use neo4j_mcp_canary.Database.Keyword.Rounds.{strip_leading_of_Stripped}

unlike : (n : ℕ) {c d : ℕ} {s t : Str} → (c == n) ≡ false → d ≡ n → c ∷ s ≢ d ∷ t
unlike n h same e = let bad = rw (head_eq e ∙ same, ==_refl n) at h in absurd (cc)

StartsCode-other : (c : ℕ) (s : Str) → is_space c ≡ false → (c == b'/') ≡ false → StartsCode c s
StartsCode-other c s clear h = (clear, λ rest. unlike b'/' h refl, λ rest. unlike b'/' h refl)

StartsCode-slash :
    (d : ℕ) (s : Str) → (d == b'/') ≡ false → (d == b'*') ≡ false → StartsCode b'/' (d ∷ s)
unfolding is_space
StartsCode-slash d s h h' = (
  refl,
  λ rest e. unlike b'/' h refl (ap (drop 1) e),
  λ rest e. unlike b'*' h' refl (ap (drop 1) e),
)

StartsCode-end : StartsCode b'/' []
unfolding is_space
StartsCode-end = (
  refl,
  λ rest e. absurd (let bad = ap (drop 1) e in cc),
  λ rest e. absurd (let bad = ap (drop 1) e in cc),
)

-- A query that starts with a slash, when shorter ones are described.
slash_total :
    (n : ℕ) (s : Str)
    → ((t : Str) → length t < n → (r : Str) × Stripped t r)
    → length s < n
    → (r : Str) × Stripped (b'/' ∷ s) r
slash_total n [] rest lt = (_, code b'/' StartsCode-end)
slash_total n (d ∷ s) rest lt = elim (Bool-cases (d == b'/')) [
  | inl e ↦
      let slashes : b'/' ∷ d ∷ s ≡ codes "//" ++ s = ap (λ x. b'/' ∷ x ∷ s) ((==_iff d b'/').0 e) in
      elim (newline_cases s) [
        | inl free ↦ ([], last_line s slashes free)
        | inr (body, t, same, free) ↦
            let size = ap length same in
            let size' = length-append body (10 ∷ t) in
            let (r, st) = rest t (omega arith) in
            (r, line body (slashes ∙ ap (λ x. codes "//" ++ x) same) free st)
      ]
  | inr e ↦ elim (Bool-cases (d == b'*')) [
    | inl e' ↦
        let opens : b'/' ∷ d ∷ s ≡ codes "/*" ++ s =
          ap (λ x. b'/' ∷ x ∷ s) ((==_iff d b'*').0 e') in
        elim (close_cases s) [
          | inl free ↦ (b'/' ∷ d ∷ s, open_block s opens free)
          | inr (body, t, same, free) ↦
              let size = ap length same in
              let size' = length-append body (codes "*/" ++ t) in
              let (r, st) = rest t (omega arith) in
              (r, block body (opens ∙ ap (λ x. codes "/*" ++ x) same) free st)
        ]
    | inr e' ↦ (b'/' ∷ d ∷ s, code b'/' (StartsCode-slash d s e e'))
  ]
]

-- Every query is one that the description speaks of.
Stripped-total : (n : ℕ) (q : Str) → length q < n → (r : Str) × Stripped q r
Stripped-total zero q lt = absurd (omega arith)
Stripped-total (suc n) [] lt = ([], ended)
Stripped-total (suc n) (c ∷ s) lt = elim (Bool-cases (is_space c)) [
  | inl e ↦ let (r, st) = Stripped-total n s (omega arith) in (r, space c e st)
  | inr e ↦ elim (Bool-cases (c == b'/')) [
    | inl slash ↦
        let (r, st) = slash_total n s (λ t lt'. Stripped-total n t lt') (omega arith) in
        (r, subst (λ x. Stripped (x ∷ s) r) (sym ((==_iff c b'/').0 slash)) st)
    | inr other ↦ (c ∷ s, code c (StartsCode-other c s e other))
  ]
]

-- For a query without "/*/", StripLeadingWhitespaceAndComments returns exactly what is left behind the
-- leading whitespace and comments: line comments end at their newline, or with the query, block
-- comments at the first "*/" behind their opening, and one that is not closed is left as it is.
pub strip_leading_iff :
    (query r : Str)
    → has_substring query (codes "/*/") ≡ false
    → (strip_leading query ≡ r) ↔ Stripped query r
strip_leading_iff query r plain =
    let (r', st) = Stripped-total (suc (length query)) query (omega arith) in
    (
      λ e. subst (Stripped query) (sym (strip_leading_of_Stripped st plain) ∙ e) st,
      λ st'. strip_leading_of_Stripped st' plain,
    )
