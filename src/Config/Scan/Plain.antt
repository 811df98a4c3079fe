-- ===== src/Config/Scan/Plain.antt =====
-- What the scanner leaves of a statement, described by the characters themselves.
use neo4j_mcp_canary.Prelude.{
  ℕ, zero, suc, ◌≤◌, true, false, not, [], ◌∷◌, ◌++◌, ◌≡◌, refl, ap, inl, inr, Bool-cases, ◌==◌,
  length, replicate, arith, and_split, not-true,
}
use neo4j_mcp_canary.Text.{Str}
use neo4j_mcp_canary.Config.Scan.{starts_with, is_quote, is_code, next, code_loop, cypher_code}
use neo4j_mcp_canary.Config.Scan.Blanks.{
  Blanked, ended, kept, blank, next-Tail, length-Tail, next_code, code_loop-Blanked,
}

-- No single or double quote, no backtick, and no slash in front of a slash or a star.
pub record PlainAt (c : ℕ) (s : Str) : Type 0 where
  pub no_single : (c == b'\'') ≡ false
  pub no_double : (c == b'"') ≡ false
  pub no_backtick : (c == b'`') ≡ false
  pub no_line : (c == b'/') ≡ true → starts_with s b'/' ≡ false
  pub no_block : (c == b'/') ≡ true → starts_with s b'*' ≡ false

abbrev pub Plain : Str → Type 0
Plain [] = Unit
Plain (c ∷ s) = PlainAt c s × Plain s

-- The default case of the scanner is for the characters that are plain.
PlainAt-of_code : (c : ℕ) (s : Str) → is_code c s ≡ true → PlainAt c s
PlainAt-of_code c s h = record {
  no_single = ground arith;
  no_double = ground arith;
  no_backtick = ground arith;
  no_line = λ e. ground arith;
  no_block = λ e. ground arith;
}

code_of_PlainAt : (c : ℕ) (s : Str) → PlainAt c s → is_code c s ≡ true
code_of_PlainAt c s p =
    let single = p.no_single in
    let double = p.no_double in
    let back = p.no_backtick in
    elim (Bool-cases (c == 47)) [
      | inl e ↦
          let line = p.no_line e in
          let block = p.no_block e in rw (single, double, back, e, line, block) refl
      | inr e ↦ rw (single, double, back, e) refl
    ]

starts_Blanked :
    (ch : ℕ) (s t : Str)
    → (32 == ch) ≡ false
    → Blanked s t
    → starts_with s ch ≡ false
    → starts_with t ch ≡ false
starts_Blanked ch _ _ n ended h = refl
starts_Blanked ch _ _ n (kept c b) h = h
starts_Blanked ch _ _ n (blank c b) h = n

-- A character that is code in a statement is code in front of what is left of the rest.
code_stays : (c : ℕ) (s t : Str) → Blanked s t → is_code c s ≡ true → is_code c t ≡ true
code_stays c s t b h = elim (Bool-cases (c == 47)) [
  | inr e ↦ rw e (rw e at h)
  | inl e ↦
      let (qa, k) = and_split _ (not (starts_with s 42)) (rw e at h) in
      let (q, a) = and_split (not (is_quote c)) (not (starts_with s 47)) qa in
      rw (
        e,
        starts_Blanked 47 s t refl b (not-true _ a),
        starts_Blanked 42 s t refl b (not-true _ k),
        q,
      )
]

Plain-replicate : (n : ℕ) (t : Str) → Plain t → Plain (replicate n 32 ++ t)
Plain-replicate zero t h = h
Plain-replicate (suc n) t h = (PlainAt-of_code 32 (replicate n 32 ++ t) refl, Plain-replicate n t h)

Plain-code_loop : (f : ℕ) (s : Str) → length s ≤ f → Plain (code_loop f s)
unfolding code_loop
Plain-code_loop zero [] h = tt
Plain-code_loop zero (c ∷ s) h = absurd (omega arith)
Plain-code_loop (suc f) [] h = tt
Plain-code_loop (suc f) (c ∷ s) h =
    let shorter = length-Tail (next-Tail c s) in
    elim (Bool-cases (is_code c s)) [
      | inl e ↦
          rw (e, next_code c s e)
            (
              PlainAt-of_code c (code_loop f s)
                  (code_stays c s (code_loop f s) (code_loop-Blanked f s (omega arith)) e),
              Plain-code_loop f s (omega arith),
            )
      | inr e ↦
          rw e (
            Plain-replicate _ (code_loop f (next c s)) (Plain-code_loop f (next c s) (omega arith)))
    ]

code_loop_of_Plain : (f : ℕ) (s : Str) → length s ≤ f → Plain s → code_loop f s ≡ s
unfolding code_loop
code_loop_of_Plain zero [] h p = refl
code_loop_of_Plain zero (c ∷ s) h p = absurd (omega arith)
code_loop_of_Plain (suc f) [] h p = refl
code_loop_of_Plain (suc f) (c ∷ s) h (at, p) =
    let e = code_of_PlainAt c s at in
    rw (e, next_code c s e) (ap (λ t. c ∷ t) (code_loop_of_Plain f s (omega arith) p))

-- The code of a statement has no single quote, double quote or backtick, and no slash in front of a
-- slash or a star, and scanning it again leaves it as it is; a statement without any of these is its
-- own code.
pub cypher_code-Plain :
    (s : Str)
    → Plain (cypher_code s)
      × (cypher_code (cypher_code s) ≡ cypher_code s)
      × (Plain s → cypher_code s ≡ s)
unfolding cypher_code
cypher_code-Plain s =
    let plain = Plain-code_loop (length s) s (omega arith) in
    (
      plain,
      code_loop_of_Plain (length (cypher_code s)) (cypher_code s) (omega arith) plain,
      code_loop_of_Plain (length s) s (omega arith),
    )
