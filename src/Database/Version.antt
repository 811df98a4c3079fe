-- ===== src/Database/Version.antt =====
-- database/version.go: whether a version clears a floor. The regular expressions are matchers by
-- clauses; the reasons carry the values that their messages are formatted from.
use neo4j_mcp_canary.Prelude.{
  ℕ, ◌+◌, ◌*◌, ◌-◌, Bool, true, false, ◌&&◌, ◌||◌, List, [], ◌∷◌, Option, none, some, if◌then◌else◌,
  leb, ltb, ◌==◌, length,
}
use neo4j_mcp_canary.Text.{Str, codes, ◌==s◌}
use neo4j_mcp_canary.Text.Search.{split, cut}
use neo4j_mcp_canary.Config.Scan.{is_digit, all}

abbrev pub all_digits : Str → Bool
all_digits s = all is_digit s

abbrev pub is_number : Str → Bool
is_number [] = false
is_number (c ∷ s) = all_digits (c ∷ s)

-- The year and the month of ^(\d{4})\.(\d{1,2})(?:\.\d+)?$
abbrev pub calendar_parts : List Str → Option (Str × Str)
calendar_parts (y ∷ m ∷ []) =
    if length y == 4 && all_digits y && is_number m && leb (length m) 2 then some (y, m) else none
calendar_parts (y ∷ m ∷ p ∷ []) =
    if length y == 4 && all_digits y && is_number m && leb (length m) 2 && is_number p
    then some (y, m)
    else none
calendar_parts parts = none

-- calendarVersionPattern
unfoldable pub calendar_version : Str → Option (Str × Str)
unfolding split
calendar_version version = calendar_parts (split version b'.')

abbrev pub aura_minor : Str → Option (Str × Str) → Option (Str × Str)
aura_minor major none = none
aura_minor major (some (minor, suffix)) =
    if is_number major && is_number minor && suffix ==s codes "aura"
    then some (major, minor)
    else none

abbrev pub classic_parts : List Str → Option (Str × Str)
classic_parts (major ∷ rest ∷ []) = aura_minor major (cut rest b'-')
classic_parts parts = none

-- classicAuraVersionPattern: ^(\d+)\.(\d+)-aura$
unfoldable pub classic_aura_version : Str → Option (Str × Str)
unfolding split cut
classic_aura_version version = classic_parts (split version b'.')

-- The value of some digits in front of which `n` was read.
abbrev pub digits_value : ℕ → Str → ℕ
digits_value n [] = n
digits_value n (c ∷ s) = digits_value (n * 10 + (c - 48)) s

abbrev pub max_int : ℕ
max_int = 9223372036854775807

-- atoiMust, of digits, with an int of 64 bits: none where it panics
unfoldable pub atoi_must : Str → Option ℕ
atoi_must s = let n = digits_value 0 s in if leb n max_int then some n else none

-- The result of MeetsMinimumVersion: ok, or the reason, or the panic of atoiMust.
pub data Verdict : Type 0 where
  meets : Verdict
  below_calendar : ℕ → ℕ → Verdict
  below_classic : ℕ → ℕ → Verdict
  unrecognized : Verdict
  panics : Verdict

abbrev pub is_below : ℕ → ℕ → ℕ → ℕ → Bool
is_below a b min_a min_b = ltb a min_a || (a == min_a && ltb b min_b)

-- The comparison of two numbers, once they are read, with a floor.
abbrev pub against_numbers : Verdict → ℕ → ℕ → Option ℕ → Option ℕ → Verdict
against_numbers below min_a min_b none b = panics
against_numbers below min_a min_b (some a) none = panics
against_numbers below min_a min_b (some a) (some b) =
    if is_below a b min_a min_b then below else meets

abbrev pub against_calendar : ℕ → ℕ → Str × Str → Verdict
against_calendar min_year min_month (year, month) =
    against_numbers (below_calendar min_year min_month) min_year min_month (atoi_must year)
      (atoi_must month)

abbrev pub against_classic : ℕ → ℕ → Option (Str × Str) → Verdict
against_classic min_major min_minor none = unrecognized
against_classic min_major min_minor (some (major, minor)) =
    against_numbers (below_classic min_major min_minor) min_major min_minor (atoi_must major)
      (atoi_must minor)

abbrev pub against_floor : ℕ → ℕ → ℕ → ℕ → Option (Str × Str) → Option (Str × Str) → Verdict
against_floor min_year min_month min_major min_minor (some calendar) classic =
    against_calendar min_year min_month calendar
against_floor min_year min_month min_major min_minor none classic =
    against_classic min_major min_minor classic

-- MeetsMinimumVersion
unfoldable pub meets_minimum_version : Str → ℕ → ℕ → ℕ → ℕ → Verdict
unfolding atoi_must calendar_version classic_aura_version
meets_minimum_version version min_year min_month min_major min_minor =
    against_floor min_year min_month min_major min_minor (calendar_version version)
      (classic_aura_version version)

-- The first result of MeetsMinimumVersion.
abbrev pub is_met : Verdict → Bool
is_met meets = true
is_met verdict = false

abbrev pub has_panicked : Verdict → Bool
has_panicked panics = true
has_panicked verdict = false
