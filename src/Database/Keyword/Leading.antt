-- ===== src/Database/Keyword/Leading.antt =====
-- How far the loop over the leading whitespace and comments of a query goes on.
use neo4j_mcp_canary.Prelude.{
  ℕ, zero, suc, ◌+◌, ◌≤◌, ◌<◌, ◌&&◌, [], ◌∷◌, ◌++◌, Option, none, some, ◌≡◌, inl, inr, refl, sym,
  ap, ◌∙◌, arith, length, length-append, append_assoc, Bool-cases, ◌==◌, some_inj,
}
use neo4j_mcp_canary.Text.{Str, codes, has_prefix, is_space, trim_left}
use neo4j_mcp_canary.Database.Keyword.{
  after_close, after_newline, Round, returned, continued, block_comment, line_comment,
  comment_round, next_round, strip_rounds, strip_leading,
}

-- `r` is what `s` holds behind at least `n` characters.
abbrev pub EndsWith : ℕ → Str → Str → Type 0
EndsWith n s r = (front : Str) × (s ≡ front ++ r) × (n ≤ length front)

EndsWith-trans : (m n : ℕ) (s t r : Str) → EndsWith m s t → EndsWith n t r → EndsWith (m + n) s r
EndsWith-trans m n s t r (f, e, le) (g, e', le') =
    (f ++ g, e ∙ (ap (λ x. f ++ x) e' ∙ sym (append_assoc f g r)), omega (arith, length-append f g))

after_close_lem : (s r : Str) → after_close s ≡ some r → EndsWith 2 s r
unfolding after_close
after_close_lem [] r h = absurd (cc)
after_close_lem (c ∷ []) r h = absurd (cc)
after_close_lem (c ∷ d ∷ s) r h = elim (Bool-cases (c == b'*' && d == b'/')) [
  | inl e ↦ (c ∷ d ∷ [], ap (λ x. c ∷ d ∷ x) (some_inj (rw e at h)), omega arith)
  | inr e ↦
      let (f, same, le) = after_close_lem (d ∷ s) r (rw e at h) in
      (c ∷ f, ap (λ x. c ∷ x) same, omega arith)
]

after_newline_lem : (s r : Str) → after_newline s ≡ some r → EndsWith 1 s r
unfolding after_newline
after_newline_lem [] r h = absurd (cc)
after_newline_lem (c ∷ s) r h = elim (Bool-cases (c == 10)) [
  | inl e ↦ (c ∷ [], ap (λ x. c ∷ x) (some_inj (rw e at h)), omega arith)
  | inr e ↦
      let (f, same, le) = after_newline_lem s r (rw e at h) in
      (c ∷ f, ap (λ x. c ∷ x) same, omega arith)
]

trim_left_lem : (s : Str) → EndsWith 0 s (trim_left is_space s)
unfolding trim_left
trim_left_lem [] = ([], refl, omega arith)
trim_left_lem (c ∷ s) = elim (Bool-cases (is_space c)) [
  | inl e ↦ let (f, same, le) = trim_left_lem s in rw e (c ∷ f, ap (λ x. c ∷ x) same, omega arith)
  | inr e ↦ rw e ([], refl, omega arith)
]

shorter : (n : ℕ) (s r : Str) → EndsWith n s r → n + length r ≤ length s
shorter n s r (f, e, le) = rw e (omega (arith, length-append f r))

-- A round that goes on does so with a text that is shorter than its query.
abbrev Shortens : Str → Round → Type 0
Shortens s (returned r) = Unit
Shortens s (continued r) = length r < length s

block_comment_lem : (s : Str) (o : Option Str) → after_close s ≡ o → Shortens s (block_comment s o)
block_comment_lem s none h = tt
block_comment_lem s (some r) h = let le = shorter 2 s r (after_close_lem s r h) in omega arith

line_comment_lem : (s : Str) (o : Option Str) → after_newline s ≡ o → Shortens s (line_comment o)
line_comment_lem s none h = tt
line_comment_lem s (some r) h = let le = shorter 1 s r (after_newline_lem s r h) in omega arith

comment_round_lem : (s : Str) → Shortens s (comment_round s)
unfolding comment_round
comment_round_lem s = elim (Bool-cases (has_prefix s (codes "/*"))) [
  | inl e ↦ rw e (block_comment_lem s (after_close s) refl)
  | inr e ↦ elim (Bool-cases (has_prefix s (codes "//"))) [
    | inl e' ↦ rw (e, e') (line_comment_lem s (after_newline s) refl)
    | inr e' ↦ rw (e, e') tt
  ]
]

-- Two runs of the loop agree on a round when they agree on every shorter text.
next_round_lem :
    (f g : Str → Str) (s : Str) (round : Round)
    → Shortens s round
    → ((r : Str) → length r < length s → f r ≡ g r)
    → next_round f round ≡ next_round g round
next_round_lem f g s (returned r) h same = refl
next_round_lem f g s (continued r) h same = same r h

strip_rounds_lem :
    (m n : ℕ) (s : Str) → length s < m → length s < n → strip_rounds m s ≡ strip_rounds n s
unfolding strip_rounds
strip_rounds_lem zero n s lt lt' = elim lt [ ]
strip_rounds_lem (suc m) zero s lt lt' = elim lt' [ ]
strip_rounds_lem (suc m) (suc n) s lt lt' =
    let t = trim_left is_space s in
    let le = shorter 0 s t (trim_left_lem s) in
    next_round_lem (strip_rounds m) (strip_rounds n) t (comment_round t) (comment_round_lem t)
      (λ r h. strip_rounds_lem m n r (omega arith) (omega arith))

pub strip_leading-enough :
    (query : Str) (n : ℕ) → length query < n → strip_rounds n query ≡ strip_leading query
unfolding strip_leading
strip_leading-enough query n h = strip_rounds_lem n (suc (length query)) query h (omega arith)
