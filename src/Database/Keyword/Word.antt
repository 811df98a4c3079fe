-- ===== src/Database/Keyword/Word.antt =====
-- FirstKeyword against the description of comments.
use neo4j_mcp_canary.Prelude.{ℕ, true, false, [], ◌∷◌, ◌++◌, ◌≡◌, ◌⊎◌, inl, inr, refl, ap, ◌∙◌, All}
use neo4j_mcp_canary.Text.{Str, codes, is_space, to_upper}
use neo4j_mcp_canary.Database.Keyword.{until_space, first_keyword}
use neo4j_mcp_canary.Text.Search.{has_substring}
use neo4j_mcp_canary.Database.Keyword.Stripped.{Stripped}
use neo4j_mcp_canary.Database.Keyword.Rounds.{strip_leading_of_Stripped}

-- The query is led by a word: it is the first thing behind the leading whitespace and comments, up to
-- a whitespace or the end, in any case.
abbrev pub LedBy : Str → Str → Type 0
LedBy word query =
    (w : Str) × (rest : Str) × Stripped query (w ++ rest)
    × All (λ c. is_space c ≡ false) w
    × ((rest ≡ []) ⊎ ((c : ℕ) × (s : Str) × (rest ≡ c ∷ s) × (is_space c ≡ true)))
    × (to_upper w ≡ word)

until_space_lem :
    (w rest : Str)
    → All (λ c. is_space c ≡ false) w
    → (rest ≡ []) ⊎ ((c : ℕ) × (s : Str) × (rest ≡ c ∷ s) × (is_space c ≡ true))
    → until_space (w ++ rest) ≡ w
unfolding until_space
until_space_lem [] rest clear (inl e) = rw e refl
until_space_lem [] rest clear (inr (c, s, e, blank)) = rw (e, blank) refl
until_space_lem (c ∷ w) rest (h, clear) end =
    rw h (ap (λ t. c ∷ t) (until_space_lem w rest clear end))

-- For a query without "/*/" that a word leads, FirstKeyword finds the word.
pub first_keyword_of_LedBy :
    (word query : Str)
    → has_substring query (codes "/*/") ≡ false
    → LedBy word query
    → first_keyword query ≡ word
unfolding first_keyword
first_keyword_of_LedBy word query plain (w, rest, st, clear, end, upper) =
    ap (λ t. to_upper (until_space t)) (strip_leading_of_Stripped st plain)
    ∙ (ap to_upper (until_space_lem w rest clear end) ∙ upper)
