-- ===== src/Config/Scan.antt =====
-- config/custom_tools.go: the scanner for the code of a statement, the parameters that it refers to,
-- and the patterns for names. A position in the source is the text from there on. The regular
-- expressions are matchers by clauses.
pub mod Blanks
pub mod Plain
use neo4j_mcp_canary.Prelude.{
  ℕ, zero, suc, ◌-◌, Bool, true, false, ◌&&◌, ◌||◌, not, List, [], ◌∷◌, ◌++◌, if◌then◌else◌, leb,
  ◌==◌, length, drop, replicate,
}
use neo4j_mcp_canary.Text.{Str}

abbrev pub starts_with : Str → ℕ → Bool
starts_with [] c = false
starts_with (d ∷ s) c = d == c

abbrev pub is_quote : ℕ → Bool
is_quote c = c == 39 || c == 34 || c == 96

-- skipQuoted, from the character after the opening quote; a backslash before it escapes the next one
unfoldable pub skip_quoted : ℕ → Bool → Str → Str
skip_quoted quote escaped [] = []
skip_quoted quote true (c ∷ s) = skip_quoted quote false s
skip_quoted quote false (c ∷ s) =
    let escapes = c == 92 && not (quote == 96) in
    let rest = skip_quoted quote escapes s in
    if escapes then rest else if c == quote then s else rest

-- The loop over a line comment.
unfoldable pub skip_line : Str → Str
skip_line [] = []
skip_line (c ∷ s) = let rest = skip_line s in if c == 10 then c ∷ s else rest

-- The loop over a block comment, and its end.
unfoldable pub skip_block : Str → Str
skip_block [] = []
skip_block (c ∷ s) =
    let rest = skip_block s in if c == 42 && starts_with s 47 then drop 1 s else rest

abbrev pub is_line_comment : ℕ → Str → Bool
is_line_comment c s = c == 47 && starts_with s 47

abbrev pub is_block_comment : ℕ → Str → Bool
is_block_comment c s = c == 47 && starts_with s 42

-- The default case of the scanner.
abbrev pub is_code : ℕ → Str → Bool
is_code c s = not (is_quote c) && not (is_line_comment c s) && not (is_block_comment c s)

-- Where the scanner goes on.
unfoldable pub next : ℕ → Str → Str
unfolding skip_quoted skip_line skip_block
next c s =
    if is_quote c
    then skip_quoted c false s
    else if is_line_comment c s
    then skip_line (c ∷ s)
    else if is_block_comment c s
    then skip_block (drop 1 s)
    else s

-- The blanks from one position to another.
abbrev pub gap : Str → Str → Str
gap s rest = replicate (length s - length rest) 32

-- The main loop of cypherCode, on fuel.
unfoldable pub code_loop : ℕ → Str → Str
unfolding next
code_loop zero s = []
code_loop (suc f) [] = []
code_loop (suc f) (c ∷ s) =
    let rest = code_loop f (next c s) in
    if is_code c s then c ∷ rest else gap (c ∷ s) (next c s) ++ rest

-- cypherCode: a round for each character is enough
unfoldable pub cypher_code : Str → Str
unfolding code_loop
cypher_code statement = code_loop (length statement) statement

abbrev pub is_lower : ℕ → Bool
is_lower c = leb 97 c && leb c 122

abbrev pub is_digit : ℕ → Bool
is_digit c = leb 48 c && leb c 57

abbrev pub is_ident_start : ℕ → Bool
is_ident_start c = is_lower c || (leb 65 c && leb c 90) || c == 95

abbrev pub is_ident : ℕ → Bool
is_ident c = is_ident_start c || is_digit c

abbrev pub all : (ℕ → Bool) → Str → Bool
all p [] = true
all p (c ∷ s) = p c && all p s

-- The rest of a kebab-case name, behind a dash or not.
abbrev pub kebab_rest : Bool → Str → Bool
kebab_rest dash [] = not dash
kebab_rest dash (c ∷ s) =
    if is_lower c || is_digit c
    then kebab_rest false s
    else c == 45 && not dash && kebab_rest true s

-- customToolNamePattern: ^[a-z][a-z0-9]*(-[a-z0-9]+)*$
unfoldable pub matches_tool_name : Str → Bool
matches_tool_name [] = false
matches_tool_name (c ∷ s) = is_lower c && kebab_rest false s

-- customCategoryPattern: ^[a-z][a-z0-9_-]{0,31}$
unfoldable pub matches_category : Str → Bool
matches_category [] = false
matches_category (c ∷ s) =
    is_lower c && leb (length s) 31 && all (λ d. is_lower d || is_digit d || d == 95 || d == 45) s

-- customParamPattern: ^[A-Za-z_][A-Za-z0-9_]*$
unfoldable pub matches_param_name : Str → Bool
matches_param_name [] = false
matches_param_name (c ∷ s) = is_ident_start c && all is_ident s

-- Where the search for references stands: outside one, behind a dollar, or in a name.
pub data Search : Type 0 where
  outside : Search
  dollar : Search
  inside : Str → Search

abbrev pub found : Search → List Str → List Str
found outside names = names
found dollar names = names
found (inside name) names = name ∷ names

abbrev pub after : Search → ℕ → Search
after outside c = if c == 36 then dollar else outside
after dollar c = if is_ident_start c then inside (c ∷ []) else if c == 36 then dollar else outside
after (inside name) c =
    if is_ident c then inside (name ++ (c ∷ [])) else if c == 36 then dollar else outside

-- Whether a name that was being read is complete.
abbrev pub completed : Search → ℕ → List Str → List Str
completed outside c names = names
completed dollar c names = names
completed (inside name) c names = if is_ident c then names else name ∷ names

-- cypherParamRef.FindAllStringSubmatch, the names: \$([A-Za-z_][A-Za-z0-9_]*)
unfoldable pub references : Search → Str → List Str
references state [] = found state []
references state (c ∷ s) = completed state c (references (after state c) s)
