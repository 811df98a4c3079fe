-- ===== src/Text.antt =====
-- Go strings as lists of code points (a Go string that is valid UTF-8), and what the modelled code
-- uses of the packages strings, unicode and strconv.
pub mod Decimal
pub mod Laws
pub mod Search
pub mod Cut
use Prim.Native.Char.{code}
use neo4j_mcp_canary.Prelude.{
  ℕ, zero, suc, ◌+◌, ◌-◌, ◌/◌, ◌%◌, String, Bool, true, false, ◌&&◌, ◌||◌, List, [], ◌∷◌, ◌++◌,
  Option, none, some, ◌==◌, leb, ltb, if◌then◌else◌, ℤ, pos, negsuc,
}

abbrev pub Str : Type 0
Str = List ℕ

-- The code points of a literal.
abbrev pub codes : String → Str
codes String.[] = []
codes (String.◌∷◌ c s) = code c ∷ codes s

-- Go's `==` on strings.
infix 50 ◌==s◌
unfoldable pub ◌==s◌ : Str → Str → Bool
[] ==s [] = true
[] ==s (y ∷ ys) = false
(x ∷ xs) ==s [] = false
(x ∷ xs) ==s (y ∷ ys) = x == y && xs ==s ys

-- Concatenation, as `fmt.Sprintf` with `%s` verbs writes it.
unfoldable pub concat : List Str → Str
concat [] = []
concat (s ∷ ss) = s ++ concat ss

unfoldable pub join_rest : List Str → Str → Str
join_rest [] sep = []
join_rest (s ∷ ss) sep = sep ++ (s ++ join_rest ss sep)

-- strings.Join
unfoldable pub join : List Str → Str → Str
unfolding join_rest
join [] sep = []
join (s ∷ ss) sep = s ++ join_rest ss sep

-- strings.HasPrefix
unfoldable pub has_prefix : Str → Str → Bool
has_prefix s [] = true
has_prefix [] (p ∷ ps) = false
has_prefix (c ∷ s) (p ∷ ps) = c == p && has_prefix s ps

-- unicode.IsSpace
unfoldable pub is_space : ℕ → Bool
is_space c =
    (leb 9 c && leb c 13)
    || c == 32
    || c == 0x85
    || c == 0xA0
    || c == 0x1680
    || (leb 0x2000 c && leb c 0x200a)
    || c == 0x2028
    || c == 0x2029
    || c == 0x202f
    || c == 0x205f
    || c == 0x3000

-- strings.TrimLeftFunc
unfoldable pub trim_left : (ℕ → Bool) → Str → Str
trim_left p [] = []
trim_left p (c ∷ s) = let rest = trim_left p s in if p c then rest else c ∷ s

-- One character in front of a text whose right end is trimmed: dropped only if all is blank.
abbrev pub keep_front : (ℕ → Bool) → ℕ → Str → Str
keep_front p c [] = if p c then [] else c ∷ []
keep_front p c (d ∷ s) = c ∷ d ∷ s

-- strings.TrimRightFunc
unfoldable pub trim_right : (ℕ → Bool) → Str → Str
trim_right p [] = []
trim_right p (c ∷ s) = keep_front p c (trim_right p s)

-- strings.TrimSpace
unfoldable pub trim_space : Str → Str
unfolding trim_left trim_right is_space
trim_space s = trim_right is_space (trim_left is_space s)

-- unicode.ToUpper. Its results are only compared with ASCII words: beside the ASCII letters, the
-- dotless i and the long s are the only runes whose upper case is ASCII. Every other rune is left.
unfoldable pub upper : ℕ → ℕ
upper c =
    if leb b'a' c && leb c b'z'
    then c - 32
    else if c == 0x131
    then b'I'
    else if c == 0x17f
    then b'S'
    else c

-- strings.ToUpper
unfoldable pub to_upper : Str → Str
unfolding upper
to_upper [] = []
to_upper (c ∷ s) = upper c ∷ to_upper s

-- slices.Contains over strings
unfoldable pub contains : List Str → Str → Bool
unfolding ◌==s◌
contains [] s = false
contains (x ∷ xs) s = x ==s s || contains xs s

-- The decimal digits of `n` in front of `out`, on fuel.
unfoldable pub digits : ℕ → ℕ → Str → Str
digits zero n out = out
digits (suc f) n out =
    let rest = digits f (n / 10) ((b'0' + n % 10) ∷ out) in
    if ltb n 10 then (b'0' + n % 10) ∷ out else rest

-- `%d` of a number that is not negative: fuel n + 1 is enough.
unfoldable pub itoa : ℕ → Str
unfolding digits
itoa n = digits (suc n) n []

-- `%d`, strconv.Itoa
unfoldable pub itoa_int : ℤ → Str
unfolding itoa
itoa_int (pos n) = itoa n
itoa_int (negsuc n) = b'-' ∷ itoa (suc n)
