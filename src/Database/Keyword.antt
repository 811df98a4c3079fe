-- ===== src/Database/Keyword.antt =====
-- database/service.go: `StripLeadingWhitespaceAndComments` and `FirstKeyword`, the scan that finds the
-- leading verb of a query.
pub mod Leading
pub mod Stripped
pub mod Cases
pub mod Rounds
pub mod Exact
pub mod Word
use neo4j_mcp_canary.Prelude.{
  ℕ, zero, suc, ◌&&◌, List, [], ◌∷◌, Option, none, some, length, ◌==◌, if◌then◌else◌,
}
use neo4j_mcp_canary.Text.{Str, codes, has_prefix, is_space, trim_left, to_upper}

-- What follows the first "*/": `strings.Index(query, "*/")` and `query[end+2:]`.
unfoldable pub after_close : Str → Option Str
after_close [] = none
after_close (c ∷ []) = none
after_close (c ∷ d ∷ s) =
    let rest = after_close (d ∷ s) in if c == b'*' && d == b'/' then some s else rest

-- What follows the first newline.
unfoldable pub after_newline : Str → Option Str
after_newline [] = none
after_newline (c ∷ s) = let rest = after_newline s in if c == 10 then some s else rest

-- A round of the loop returns or goes on with the rest of the query.
pub data Round : Type 0 where
  returned : Str → Round
  continued : Str → Round

abbrev pub block_comment : Str → Option Str → Round
block_comment query none = returned query
block_comment query (some rest) = continued rest

abbrev pub line_comment : Option Str → Round
line_comment none = returned []
line_comment (some rest) = continued rest

-- The body of the loop, behind the whitespace.
unfoldable pub comment_round : Str → Round
comment_round query =
    if has_prefix query (codes "/*")
    then block_comment query (after_close query)
    else if has_prefix query (codes "//")
    then line_comment (after_newline query)
    else returned query

abbrev pub next_round : (Str → Str) → Round → Str
next_round f (returned query) = query
next_round f (continued rest) = f rest

unfoldable pub strip_rounds : ℕ → Str → Str
strip_rounds zero query = query
strip_rounds (suc fuel) query =
    next_round (strip_rounds fuel) (comment_round (trim_left is_space query))

-- StripLeadingWhitespaceAndComments: a round that goes on drops two characters or more, so fuel above
-- the length is never used up.
unfoldable pub strip_leading : Str → Str
unfolding strip_rounds
strip_leading query = strip_rounds (suc (length query)) query

-- `s[:end]`, where `end` is the index of the first whitespace, or the length
unfoldable pub until_space : Str → Str
until_space [] = []
until_space (c ∷ s) = let rest = until_space s in if is_space c then [] else c ∷ rest

-- FirstKeyword
unfoldable pub first_keyword : Str → Str
unfolding strip_leading until_space
first_keyword query = to_upper (until_space (strip_leading query))
