-- ===== src/Database/Keyword/Cases.antt =====
-- Texts without a newline or a "*/", and the first one of a text.
use mathlib.Core.Path.{subst}
use neo4j_mcp_canary.Prelude.{
  ℕ, false, ◌&&◌, [], ◌∷◌, ◌++◌, ◌≡◌, ◌⊎◌, inl, inr, refl, ap, Bool-cases, ◌==◌, ==_iff, and_split,
  drop,
}
use neo4j_mcp_canary.Text.{Str, codes}
use neo4j_mcp_canary.Database.Keyword.Stripped.{NoNewline, NoClose}

abbrev head_or : ℕ → Str → ℕ
head_or n [] = n
head_or n (c ∷ s) = c

pub head_eq : {c d : ℕ} {s t : Str} → c ∷ s ≡ d ∷ t → c ≡ d
head_eq e = ap (head_or 0) e

NoNewline-nil : NoNewline []
NoNewline-nil [] rest e = absurd (cc)
NoNewline-nil (x ∷ front) rest e = absurd (cc)

NoNewline-cons : (c : ℕ) (s : Str) → (c == 10) ≡ false → NoNewline s → NoNewline (c ∷ s)
NoNewline-cons c s n free [] rest e =
    let same = ap (head_or 0) e in absurd (let bad = rw same at n in cc)
NoNewline-cons c s n free (x ∷ front) rest e = free front rest (ap (drop 1) e)

NoClose-nil : NoClose []
NoClose-nil [] rest e = absurd (cc)
NoClose-nil (x ∷ front) rest e = absurd (cc)

NoClose-one : (c : ℕ) → NoClose (c ∷ [])
NoClose-one c [] rest e = absurd (let bad = ap (drop 1) e in cc)
NoClose-one c (x ∷ front) rest e = NoClose-nil front rest (ap (drop 1) e)

NoClose-cons :
    (c d : ℕ) (s : Str) → (c == b'*' && d == b'/') ≡ false → NoClose (d ∷ s) → NoClose (c ∷ d ∷ s)
NoClose-cons c d s n free [] rest e =
    let star = ap (head_or 0) e in
    let slash = ap (λ t. head_or 0 (drop 1 t)) e in absurd (let bad = rw (star, slash) at n in cc)
NoClose-cons c d s n free (x ∷ front) rest e = free front rest (ap (drop 1) e)

-- The first newline, and the first "*/", of a text, if there is one.
pub newline_cases :
    (x : Str) → NoNewline x ⊎ ((body : Str) × (s : Str) × (x ≡ body ++ (10 ∷ s)) × NoNewline body)
newline_cases [] = inl NoNewline-nil
newline_cases (c ∷ x) = elim (Bool-cases (c == 10)) [
  | inl e ↦ inr ([], x, ap (λ d. d ∷ x) ((==_iff c 10).0 e), NoNewline-nil)
  | inr e ↦ elim (newline_cases x) [
    | inl free ↦ inl (NoNewline-cons c x e free)
    | inr (body, s, same, free) ↦
        inr (c ∷ body, s, ap (λ t. c ∷ t) same, NoNewline-cons c body e free)
  ]
]

pub close_cases :
    (x : Str)
    → NoClose x ⊎ ((body : Str) × (s : Str) × (x ≡ body ++ (codes "*/" ++ s)) × NoClose body)
close_cases [] = inl NoClose-nil
close_cases (c ∷ []) = inl (NoClose-one c)
close_cases (c ∷ d ∷ x) = elim (Bool-cases (c == b'*' && d == b'/')) [
  | inl e ↦
      let (star, slash) = and_split (c == b'*') (d == b'/') e in
      let same : c ∷ d ∷ x ≡ codes "*/" ++ x =
        rw ((==_iff c b'*').0 star, (==_iff d b'/').0 slash) refl in
      inr ([], x, same, NoClose-nil)
  | inr e ↦ elim (close_cases (d ∷ x)) [
    | inl free ↦ inl (NoClose-cons c d x e free)
    | inr ([], s, same, free) ↦ inr (c ∷ [], s, ap (λ t. c ∷ t) same, NoClose-one c)
    | inr (y ∷ body, s, same, free) ↦ inr (
      c ∷ y ∷ body,
      s,
      ap (λ t. c ∷ t) same,
      NoClose-cons c y body (subst (λ z. (c == b'*' && z == b'/') ≡ false) (head_eq same) e) free,
    )
  ]
]
