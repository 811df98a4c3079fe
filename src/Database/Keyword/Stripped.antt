-- ===== src/Database/Keyword/Stripped.antt =====
-- The leading whitespace and comments of a query as Cypher writes them, described without the scan. A
-- comment /* ... */ ends at the first "*/" behind its "/*"; the scan also takes the star of the opening
-- for that of a closing, in "/*/", so the queries here have no such text.
use neo4j_mcp_canary.Prelude.{
  ℕ, true, false, ◌&&◌, [], ◌∷◌, ◌++◌, none, some, ◌≡◌, ◌≢◌, inl, inr, refl, ap, arith, Bool-cases,
  ◌==◌, ==_iff, or_split, and_split,
}
use neo4j_mcp_canary.Text.{Str, codes, has_prefix, is_space}
use neo4j_mcp_canary.Text.Search.{has_substring}
use neo4j_mcp_canary.Database.Keyword.{after_close, after_newline}

-- No newline, and no "*/".
abbrev pub NoNewline : Str → Type 0
NoNewline body = (front rest : Str) → body ≢ front ++ (10 ∷ rest)

abbrev pub NoClose : Str → Type 0
NoClose body = (front rest : Str) → body ≢ front ++ (b'*' ∷ b'/' ∷ rest)

-- A character that is no whitespace and starts no comment in front of a text.
abbrev pub StartsCode : ℕ → Str → Type 0
StartsCode c s =
    (is_space c ≡ false)
    × ((rest : Str) → c ∷ s ≢ codes "//" ++ rest)
    × ((rest : Str) → c ∷ s ≢ codes "/*" ++ rest)

-- A query, and what is left of it behind its leading whitespace and comments. A block comment that is
-- not closed is left.
pub data Stripped : Str → Str → Type 0 where
  ended : Stripped [] []
  space : {s r : Str} (c : ℕ) → is_space c ≡ true → Stripped s r → Stripped (c ∷ s) r
  line :
      {q s r : Str} (body : Str)
      → q ≡ codes "//" ++ (body ++ (10 ∷ s))
      → NoNewline body
      → Stripped s r
      → Stripped q r
  last_line : {q : Str} (body : Str) → q ≡ codes "//" ++ body → NoNewline body → Stripped q []
  block :
      {q s r : Str} (body : Str)
      → q ≡ codes "/*" ++ (body ++ (codes "*/" ++ s))
      → NoClose body
      → Stripped s r
      → Stripped q r
  open_block : {q : Str} (body : Str) → q ≡ codes "/*" ++ body → NoClose body → Stripped q q
  code : {s : Str} (c : ℕ) → StartsCode c s → Stripped (c ∷ s) (c ∷ s)

pub NoNewline-tail : (c : ℕ) (s : Str) → NoNewline (c ∷ s) → NoNewline s
NoNewline-tail c s h front rest e = h (c ∷ front) rest (ap (λ t. c ∷ t) e)

pub NoClose-tail : (c : ℕ) (s : Str) → NoClose (c ∷ s) → NoClose s
NoClose-tail c s h front rest e = h (c ∷ front) rest (ap (λ t. c ∷ t) e)

pub newline_first : (c : ℕ) (s : Str) → NoNewline (c ∷ s) → (c == 10) ≡ false
newline_first c s h = elim (Bool-cases (c == 10)) [
  | inl e ↦ absurd (h [] s (ap (λ x. x ∷ s) ((==_iff c 10).0 e)))
  | inr e ↦ e
]

pub close_first : (c d : ℕ) (s : Str) → NoClose (c ∷ d ∷ s) → (c == b'*' && d == b'/') ≡ false
close_first c d s h = elim (Bool-cases (c == b'*' && d == b'/')) [
  | inl e ↦
      let (star, slash) = and_split (c == b'*') (d == b'/') e in
      let same : c ∷ d ∷ s ≡ b'*' ∷ b'/' ∷ s =
        rw ((==_iff c b'*').0 star, (==_iff d b'/').0 slash) refl in
      absurd (h [] s same)
  | inr e ↦ e
]

pub after_newline_found :
    (body s : Str) → NoNewline body → after_newline (body ++ (10 ∷ s)) ≡ some s
unfolding after_newline
after_newline_found [] s h = refl
after_newline_found (c ∷ body) s h =
    rw (newline_first c body h) (after_newline_found body s (NoNewline-tail c body h))

pub after_newline_missing : (body : Str) → NoNewline body → after_newline body ≡ none
unfolding after_newline
after_newline_missing [] h = refl
after_newline_missing (c ∷ body) h =
    rw (newline_first c body h) (after_newline_missing body (NoNewline-tail c body h))

star_alone : (c : ℕ) → (c == b'*' && b'*' == b'/') ≡ false
star_alone c = ground arith

pub after_close_found :
    (body s : Str) → NoClose body → after_close (body ++ (b'*' ∷ b'/' ∷ s)) ≡ some s
unfolding after_close
after_close_found [] s h = refl
after_close_found (c ∷ []) s h = rw (star_alone c) refl
after_close_found (c ∷ d ∷ body) s h =
    rw (close_first c d body h) (after_close_found (d ∷ body) s (NoClose-tail c (d ∷ body) h))

pub after_close_missing : (body : Str) → NoClose body → after_close body ≡ none
unfolding after_close
after_close_missing [] h = refl
after_close_missing (c ∷ []) h = refl
after_close_missing (c ∷ d ∷ body) h =
    rw (close_first c d body h) (after_close_missing (d ∷ body) (NoClose-tail c (d ∷ body) h))

-- The text has no "/*/".
abbrev pub HasPlainOpenings : Str → Type 0
HasPlainOpenings q = has_substring q (codes "/*/") ≡ false

pub HasPlainOpenings-end : (front s : Str) → HasPlainOpenings (front ++ s) → HasPlainOpenings s
unfolding has_substring
HasPlainOpenings-end [] s h = h
HasPlainOpenings-end (c ∷ front) s h =
    HasPlainOpenings-end front s (or_split (has_prefix (c ∷ (front ++ s)) (codes "/*/")) _ h).1

-- Behind a plain opening, the scan looks for the "*/" where it should.
pub opening_lem :
    (s : Str) → HasPlainOpenings (codes "/*" ++ s) → after_close (codes "/*" ++ s) ≡ after_close s
unfolding after_close has_substring has_prefix
opening_lem [] h = refl
opening_lem (c ∷ s) h = elim (Bool-cases (c == b'/')) [
  | inl e ↦ absurd (let bad = rw e at h in cc)
  | inr e ↦ rw e refl
]
