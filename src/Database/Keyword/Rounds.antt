-- ===== src/Database/Keyword/Rounds.antt =====
-- The scan over the leading whitespace and comments of a query, along their description.
use mathlib.Core.Path.{subst}
use neo4j_mcp_canary.Prelude.{
  ℕ, suc, true, false, [], ◌∷◌, ◌++◌, ◌≡◌, ◌≢◌, inl, inr, refl, sym, ap, ◌∙◌, arith, length,
  length-append, Bool-cases, ◌==◌, ==_iff,
}
use neo4j_mcp_canary.Text.{Str, codes, has_prefix, is_space, trim_left}
use neo4j_mcp_canary.Database.Keyword.{
  after_close, after_newline, comment_round, next_round, block_comment, line_comment, strip_rounds,
  strip_leading,
}
use neo4j_mcp_canary.Database.Keyword.Leading.{strip_leading-enough}
use neo4j_mcp_canary.Database.Keyword.Stripped.{
  StartsCode, Stripped, ended, space, line, last_line, block, open_block, code, after_newline_found,
  after_newline_missing, after_close_found, after_close_missing, HasPlainOpenings,
  HasPlainOpenings-end, opening_lem,
}

-- A text that starts no comment starts neither of the two prefixes.
no_prefix :
    (c d e : ℕ) (s : Str)
    → ((rest : Str) → c ∷ s ≢ d ∷ e ∷ rest)
    → has_prefix (c ∷ s) (d ∷ e ∷ []) ≡ false
unfolding has_prefix
no_prefix c d e [] h = ground arith
no_prefix c d e (x ∷ s) h = elim (Bool-cases (c == d)) [
  | inl p ↦ elim (Bool-cases (x == e)) [
    | inl q ↦
        let same : c ∷ x ∷ s ≡ d ∷ e ∷ s = rw ((==_iff c d).0 p, (==_iff x e).0 q) refl in
        absurd (h s same)
    | inr q ↦ rw (p, q) refl
  ]
  | inr p ↦ rw p refl
]

round_line :
    (fuel : ℕ) (x : Str)
    → strip_rounds (suc fuel) (codes "//" ++ x)
      ≡ next_round (strip_rounds fuel) (line_comment (after_newline x))
unfolding strip_rounds comment_round has_prefix trim_left is_space after_newline
round_line fuel x = refl

round_block :
    (fuel : ℕ) (x : Str)
    → HasPlainOpenings (codes "/*" ++ x)
    → strip_rounds (suc fuel) (codes "/*" ++ x)
      ≡ next_round (strip_rounds fuel) (block_comment (codes "/*" ++ x) (after_close x))
unfolding strip_rounds comment_round has_prefix trim_left is_space
round_block fuel x plain = rw (opening_lem x plain) refl

round_code : (fuel c : ℕ) (s : Str) → StartsCode c s → strip_rounds (suc fuel) (c ∷ s) ≡ c ∷ s
unfolding strip_rounds comment_round trim_left
round_code fuel c s (clear, no_line, no_block) =
    rw (clear, no_prefix c b'/' b'*' s no_block, no_prefix c b'/' b'/' s no_line) refl

round_space :
    (fuel c : ℕ) (s : Str)
    → is_space c ≡ true
    → strip_rounds (suc fuel) (c ∷ s) ≡ strip_rounds (suc fuel) s
unfolding strip_rounds trim_left
round_space fuel c s e = rw e refl

round_nothing : (fuel : ℕ) → strip_rounds (suc fuel) [] ≡ []
unfolding strip_rounds comment_round has_prefix trim_left
round_nothing fuel = refl

-- The scan finds what the description says.
pub strip_leading_of_Stripped :
    {q r : Str} → Stripped q r → HasPlainOpenings q → strip_leading q ≡ r
unfolding strip_leading
strip_leading_of_Stripped ended plain = round_nothing 0
strip_leading_of_Stripped {r = r} (space {s = s} c e st) plain =
    round_space (length (c ∷ s)) c s e
    ∙ (strip_leading-enough s (suc (length (c ∷ s))) (omega arith)
        ∙ strip_leading_of_Stripped {q = s} {r = r} st (HasPlainOpenings-end (c ∷ []) s plain))
strip_leading_of_Stripped {q = q} {r = r} (line {s = s} body same free st) plain =
    let x = body ++ (10 ∷ s) in
    let size = length-append body (10 ∷ s) in
    let clear = HasPlainOpenings-end (codes "//") x (subst HasPlainOpenings same plain) in
    ap strip_leading same
    ∙ (round_line (length (codes "//" ++ x)) x
        ∙ (ap (λ o. next_round (strip_rounds (length (codes "//" ++ x))) (line_comment o))
              (after_newline_found body s free)
            ∙ (strip_leading-enough s (length (codes "//" ++ x)) (omega arith)
                ∙ strip_leading_of_Stripped {q = s} {r = r} st
                    (HasPlainOpenings-end (10 ∷ []) s (HasPlainOpenings-end body (10 ∷ s) clear)))))
strip_leading_of_Stripped (last_line body same free) plain =
    ap strip_leading same
    ∙ (round_line (length (codes "//" ++ body)) body
        ∙ ap (λ o. next_round (strip_rounds (length (codes "//" ++ body))) (line_comment o))
            (after_newline_missing body free))
strip_leading_of_Stripped {q = q} {r = r} (block {s = s} body same free st) plain =
    let x = body ++ (codes "*/" ++ s) in
    let size = length-append body (codes "*/" ++ s) in
    let plain' = subst HasPlainOpenings same plain in
    let clear = HasPlainOpenings-end (codes "/*") x plain' in
    ap strip_leading same
    ∙ (round_block (length (codes "/*" ++ x)) x plain'
        ∙ (ap
              (λ o.
                next_round (strip_rounds (length (codes "/*" ++ x)))
                  (block_comment (codes "/*" ++ x) o))
              (after_close_found body s free)
            ∙ (strip_leading-enough s (length (codes "/*" ++ x)) (omega arith)
                ∙ strip_leading_of_Stripped {q = s} {r = r} st (
                    HasPlainOpenings-end (codes "*/") s
                      (HasPlainOpenings-end body (codes "*/" ++ s) clear)))))
strip_leading_of_Stripped (open_block body same free) plain =
    ap strip_leading same
    ∙ (round_block (length (codes "/*" ++ body)) body (subst HasPlainOpenings same plain)
        ∙ (ap
              (λ o.
                next_round (strip_rounds (length (codes "/*" ++ body)))
                  (block_comment (codes "/*" ++ body) o))
              (after_close_missing body free)
            ∙ sym same))
strip_leading_of_Stripped (code {s = s} c starts) plain = round_code (length (c ∷ s)) c s starts
