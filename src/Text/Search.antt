-- ===== src/Text/Search.antt =====
-- What the modelled code uses of the package strings to look inside a text: cutting at a prefix or a
-- separator, splitting, and comparing without regard to case.
use neo4j_mcp_canary.Prelude.{
  ℕ, Bool, true, false, ◌||◌, List, [], ◌∷◌, Option, none, some, ◌==◌, if◌then◌else◌, drop, length,
}
use neo4j_mcp_canary.Text.{Str, ◌==s◌, has_prefix, to_upper}

-- strings.EqualFold, of texts that are ASCII, as the names of headers are
unfoldable pub equal_fold : Str → Str → Bool
unfolding to_upper
equal_fold s t = to_upper s ==s to_upper t

-- strings.CutPrefix
unfoldable pub cut_prefix : Str → Str → Str × Bool
cut_prefix s p = if has_prefix s p then (drop (length p) s, true) else (s, false)

-- strings.Cut at a separator of one character; none when it is not there
unfoldable pub cut : Str → ℕ → Option (Str × Str)
cut [] sep = none
cut (c ∷ s) sep =
    let rest = cut s sep in
    if c == sep
    then some ([], s)
    else elim rest [ none ↦ none | some (before, after) ↦ some (c ∷ before, after) ]

abbrev pub add_to_first : ℕ → List Str → List Str
add_to_first c [] = (c ∷ []) ∷ []
add_to_first c (part ∷ parts) = (c ∷ part) ∷ parts

-- strings.Split at a separator of one character
unfoldable pub split : Str → ℕ → List Str
split [] sep = [] ∷ []
split (c ∷ s) sep = let rest = split s sep in if c == sep then [] ∷ rest else add_to_first c rest

-- strings.Contains
unfoldable pub has_substring : Str → Str → Bool
unfolding has_prefix
has_substring [] p = has_prefix [] p
has_substring (c ∷ s) p = has_prefix (c ∷ s) p || has_substring s p
