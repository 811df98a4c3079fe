-- ===== src/Config/Scan/Blanks.antt =====
-- The code of a statement is the statement with some characters blanked out.
use neo4j_mcp_canary.Prelude.{
  ℕ, ◌≤◌, Bool, true, false, ◌&&◌, not, [], ◌∷◌, inl, inr, Bool-cases, ◌==◌, length, drop, arith,
  zero, suc, ◌-◌, ◌++◌, ◌≡◌, ==_iff, and_split, not-true,
}
use neo4j_mcp_canary.Text.{Str}
use neo4j_mcp_canary.Config.Scan.{
  starts_with, skip_quoted, skip_line, skip_block, is_quote, is_line_comment, is_block_comment,
  is_code, next, gap, code_loop, cypher_code,
}

-- A later position of a text.
pub data Tail (rest : Str) : Str → Type 0 where
  here : Tail rest rest
  later : {c : ℕ} {s : Str} → Tail rest s → Tail rest (c ∷ s)

-- The second text is the first with some characters blanked out.
pub data Blanked : Str → Str → Type 0 where
  ended : Blanked [] []
  kept : (c : ℕ) {s t : Str} → Blanked s t → Blanked (c ∷ s) (c ∷ t)
  blank : (c : ℕ) {s t : Str} → Blanked s t → Blanked (c ∷ s) (32 ∷ t)

all_of : (s : Str) → Tail [] s
all_of [] = here
all_of (c ∷ s) = later (all_of s)

pub length-Tail : {rest s : Str} → Tail rest s → length rest ≤ length s
length-Tail here = omega arith
length-Tail (later t) = omega (arith, length-Tail t)

skip_quoted-Tail : (q : ℕ) (escaped : Bool) (s : Str) → Tail (skip_quoted q escaped s) s
unfolding skip_quoted
skip_quoted-Tail q escaped [] = here
skip_quoted-Tail q true (c ∷ s) = later (skip_quoted-Tail q false s)
skip_quoted-Tail q false (c ∷ s) =
    let escapes = c == 92 && not (q == 96) in
    elim (Bool-cases escapes) [
      | inl e ↦ rw (e) (later (skip_quoted-Tail q true s))
      | inr e ↦ elim (Bool-cases (c == q)) [
        | inl e' ↦ rw (e, e') (later here)
        | inr e' ↦ rw (e, e') (later (skip_quoted-Tail q false s))
      ]
    ]

skip_line-Tail : (s : Str) → Tail (skip_line s) s
unfolding skip_line
skip_line-Tail [] = here
skip_line-Tail (c ∷ s) = elim (Bool-cases (c == 10)) [
  | inl e ↦ rw e here
  | inr e ↦ rw e (later (skip_line-Tail s))
]

drop-Tail : (s : Str) → Tail (drop 1 s) s
drop-Tail [] = here
drop-Tail (c ∷ s) = later here

skip_block-Tail : (s : Str) → Tail (skip_block s) s
unfolding skip_block
skip_block-Tail [] = here
skip_block-Tail (c ∷ s) = elim (Bool-cases (c == 42 && starts_with s 47)) [
  | inl e ↦ rw e (later (drop-Tail s))
  | inr e ↦ rw e (later (skip_block-Tail s))
]

Tail-trans : {a b c : Str} → Tail a b → Tail b c → Tail a c
Tail-trans t here = t
Tail-trans t (later u) = later (Tail-trans t u)

slash_not_newline : (c : ℕ) (s : Str) → is_line_comment c s ≡ true → (c == 10) ≡ true → ⊥
slash_not_newline c s e n = let c' = (==_iff c 10).0 n in let bad = rw c' at e in absurd (cc)

-- The scanner goes on behind the character.
pub next-Tail : (c : ℕ) (s : Str) → Tail (next c s) s
unfolding next skip_line
next-Tail c s = elim (Bool-cases (is_quote c)) [
  | inl e ↦ rw e (skip_quoted-Tail c false s)
  | inr e ↦ elim (Bool-cases (is_line_comment c s)) [
    | inl e' ↦ elim (Bool-cases (c == 10)) [
      | inl n ↦ absurd (slash_not_newline c s e' n)
      | inr n ↦ rw (e, e', n) (skip_line-Tail s)
    ]
    | inr e' ↦ elim (Bool-cases (is_block_comment c s)) [
      | inl e'' ↦ rw (e, e', e'') (Tail-trans (skip_block-Tail (drop 1 s)) (drop-Tail s))
      | inr e'' ↦ rw (e, e', e'') here
    ]
  ]
]

gap_here : (s t : Str) → gap s s ++ t ≡ t
gap_here s t = let e : length s - length s ≡ 0 = omega arith in rw e

gap_later :
    (c : ℕ) (s rest t : Str)
    → length rest ≤ length s
    → gap (c ∷ s) rest ++ t ≡ 32 ∷ (gap s rest ++ t)
gap_later c s rest t h =
    let e : suc (length s) - length rest ≡ suc (length s - length rest) = omega arith in rw e

-- Blanks up to a position, and what follows blanked out.
gap-Blanked : (rest s t : Str) → Tail rest s → Blanked rest t → Blanked s (gap s rest ++ t)
gap-Blanked rest _ t here b = rw (gap_here rest t) b
gap-Blanked rest _ t (later {c} {s} u) b =
    rw (gap_later c s rest t (length-Tail u)) (blank c (gap-Blanked rest s t u b))

-- In the default case the scanner goes on at the next character.
pub next_code : (c : ℕ) (s : Str) → is_code c s ≡ true → next c s ≡ s
unfolding next
next_code c s h =
    let (ab, k) = and_split _ (not (is_block_comment c s)) h in
    let (a, b) = and_split _ (not (is_line_comment c s)) ab in
    rw (not-true _ a, not-true _ b, not-true _ k)

pub code_loop-Blanked : (f : ℕ) (s : Str) → length s ≤ f → Blanked s (code_loop f s)
unfolding code_loop
code_loop-Blanked zero [] h = ended
code_loop-Blanked zero (c ∷ s) h = absurd (omega arith)
code_loop-Blanked (suc f) [] h = ended
code_loop-Blanked (suc f) (c ∷ s) h =
    let shorter = length-Tail (next-Tail c s) in
    let rest = code_loop-Blanked f (next c s) (omega arith) in
    elim (Bool-cases (is_code c s)) [
      | inl e ↦ rw (e, next_code c s e) (kept c (code_loop-Blanked f s (omega arith)))
      | inr e ↦ rw e (gap-Blanked (next c s) (c ∷ s) _ (later (next-Tail c s)) rest)
    ]

-- The code of a statement is the statement with some of its characters replaced by blanks: every
-- character of the code stands where it stands in the statement.
pub cypher_code-Blanked : (s : Str) → Blanked s (cypher_code s)
unfolding cypher_code
cypher_code-Blanked s = code_loop-Blanked (length s) s (omega arith)
