-- ===== src/Graphutil/Quote/ReadBack.antt =====
-- A reader of quoted identifiers, as Cypher's lexer has it.
use neo4j_mcp_canary.Prelude.{
  ℕ, false, List, [], ◌∷◌, ◌++◌, ◌≡◌, ◌≢◌, refl, ap, arith, Option, none, some, ◌==◌, ==_iff,
  ==_refl, if◌then◌else◌, append_assoc, Bool-cases, inl, inr, All,
}
use neo4j_mcp_canary.Text.{Str, join, join_rest}
use mathlib.Core.List.{cons-ne-nil}
use neo4j_mcp_canary.Graphutil.Error.{Result, ok, err, ◌>>=r◌, ok_inj, Result-cases}
use neo4j_mcp_canary.Graphutil.Quote.{
  backtick, double_backticks, quote_identifier, is_blank, quote_names, join_quoted,
}

abbrev pub cons_fst : ℕ → Option (Str × Str) → Option (Str × Str)
cons_fst c none = none
cons_fst c (some (s, r)) = some (c ∷ s, r)

-- Behind the opening backtick: a doubled backtick is one character, a single one ends the name.
unfoldable pub read_quoted : Str → Option (Str × Str)
read_quoted [] = none
read_quoted (c ∷ []) = if c == backtick then some ([], []) else none
read_quoted (c ∷ d ∷ s) =
    let more = cons_fst c (read_quoted (d ∷ s)) in
    let escaped = cons_fst backtick (read_quoted s) in
    if c == backtick then (if d == backtick then escaped else some ([], d ∷ s)) else more

-- One quoted identifier at the front of a text, and what follows it.
unfoldable pub read_identifier : Str → Option (Str × Str)
unfolding read_quoted
read_identifier [] = none
read_identifier (c ∷ s) = if c == backtick then read_quoted s else none

-- The text goes on with something else than `c`.
abbrev pub NotAhead : ℕ → Str → Type 0
NotAhead c [] = Unit
NotAhead c (d ∷ s) = (d == c) ≡ false

read_plain :
    (c : ℕ) (s : Str) → (c == backtick) ≡ false → read_quoted (c ∷ s) ≡ cons_fst c (read_quoted s)
unfolding read_quoted
read_plain c [] h = rw h
read_plain c (d ∷ s) h = rw h

read_escaped : (s : Str) → read_quoted (backtick ∷ backtick ∷ s) ≡ cons_fst backtick (read_quoted s)
unfolding read_quoted
read_escaped s = refl

read_close : (r : Str) → NotAhead backtick r → read_quoted (backtick ∷ r) ≡ some ([], r)
unfolding read_quoted
read_close [] h = refl
read_close (d ∷ r) h = rw h

read-double_backticks :
    (s r : Str)
    → NotAhead backtick r
    → read_quoted (double_backticks s ++ backtick ∷ r) ≡ some (s, r)
unfolding double_backticks
read-double_backticks [] r h = read_close r h
read-double_backticks (c ∷ s) r h = elim (Bool-cases (c == backtick)) [
  | inl e ↦ rw ((==_iff _ _).0 e, read_escaped, read-double_backticks s r h)
  | inr e ↦ rw (e, read_plain c _ e, read-double_backticks s r h)
]

-- A quoted identifier is read back as the identifier, whatever characters it holds, and the reader
-- stops right behind it, if no backtick follows.
pub read-quote_identifier :
    (s r : Str) → NotAhead backtick r → read_identifier (quote_identifier s ++ r) ≡ some (s, r)
unfolding read_identifier quote_identifier
read-quote_identifier s r h =
    rw (append_assoc (double_backticks s) (backtick ∷ []) r) (read-double_backticks s r h)

abbrev pub then_read :
    (Str → Option (List Str × Str)) → Option (Str × Str) → Option (List Str × Str)
then_read f none = none
then_read f (some (s, r)) = elim (f r) [ none ↦ none | some (ss, r') ↦ some (s ∷ ss, r') ]

then_read-some :
    (f : Str → Option (List Str × Str)) (n s : Str) (names : List Str) (r : Str)
    → f s ≡ some (names, r)
    → then_read f (some (n, s)) ≡ some (n ∷ names, r)
then_read-some f n s names r h =
    ap (λ (o : Option (List Str × Str)). elim o [ none ↦ none | some (ss, r') ↦ some (n ∷ ss, r') ])
      h

-- The identifiers, each behind the character that `lead` holds for it.
unfoldable pub read_names : List ℕ → Str → Option (List Str × Str)
unfolding read_identifier
read_names [] s = some ([], s)
read_names (l ∷ ls) [] = none
read_names (l ∷ ls) (c ∷ s) =
    let rest = then_read (read_names ls) (read_identifier s) in if c == l then rest else none

-- The character before each name: the prefix, and then separators.
abbrev pub separators : ℕ → List Str → List ℕ
separators sep [] = []
separators sep (n ∷ names) = sep ∷ separators sep names

abbrev pub leads : ℕ → ℕ → List Str → List ℕ
leads prefix sep [] = []
leads prefix sep (n ∷ names) = prefix ∷ separators sep names

abbrev pub NotBlank : Str → Type 0
NotBlank n = is_blank n ≡ false

abbrev pub quoted_all : List Str → List Str
quoted_all [] = []
quoted_all (n ∷ ns) = quote_identifier n ∷ quoted_all ns

abbrev AllQuoted : Str → List Str → List Str → Type 0
AllQuoted what names quoted = All NotBlank names × (quoted ≡ quoted_all names)

quote_names-cons :
    (n : Str) (names : List Str) (what : Str) (quoted : List Str) (r : Result (List Str))
    → is_blank n ≡ false
    → ((qs : List Str) → r ≡ ok qs → AllQuoted what names qs)
    → (r >>=r λ qs. ok (quote_identifier n ∷ qs)) ≡ ok quoted
    → AllQuoted what (n ∷ names) quoted
quote_names-cons n names what quoted (ok qs) e ih k =
    let (clear, same) = ih qs refl in ((e, clear), cc)
quote_names-cons n names what quoted (err x) e ih k = cc

-- A blank name is refused; otherwise every name is quoted.
pub quote_names-ok :
    (names : List Str) (what : Str) (quoted : List Str)
    → quote_names names what ≡ ok quoted
    → AllQuoted what names quoted
unfolding quote_names
quote_names-ok [] what quoted h = (tt, ground arith)
quote_names-ok (n ∷ names) what quoted h = elim (Bool-cases (is_blank n)) [
  | inl e ↦ absurd (cc (rw e at h))
  | inr e ↦
      quote_names-cons n names what quoted (quote_names names what) e
        (λ qs. quote_names-ok names what qs) (rw e at h)
]

NotAhead-join_rest :
    (sep : ℕ) (names : List Str) (r : Str)
    → (sep == backtick) ≡ false
    → NotAhead backtick r
    → NotAhead backtick (join_rest (quoted_all names) (sep ∷ []) ++ r)
unfolding join_rest
NotAhead-join_rest sep [] r hs h = h
NotAhead-join_rest sep (n ∷ names) r hs h = hs

read_join_rest :
    (sep : ℕ) (names : List Str) (r : Str)
    → (sep == backtick) ≡ false
    → NotAhead backtick r
    → read_names (separators sep names) (join_rest (quoted_all names) (sep ∷ []) ++ r)
      ≡ some (names, r)
unfolding read_names join_rest
read_join_rest sep [] r hs h = refl
read_join_rest sep (n ∷ names) r hs h = rw (
  ==_refl sep,
  append_assoc (quote_identifier n) (join_rest (quoted_all names) (sep ∷ [])) r,
  read-quote_identifier n _ (NotAhead-join_rest sep names r hs h),
  read_join_rest sep names r hs h,
)

read_join :
    (prefix sep : ℕ) (names : List Str) (r : Str)
    → (sep == backtick) ≡ false
    → NotAhead backtick r
    → names ≢ []
    → read_names (leads prefix sep names) (prefix ∷ (join (quoted_all names) (sep ∷ []) ++ r))
      ≡ some (names, r)
unfolding read_names join
read_join prefix sep [] r hs h ne = absurd (ne refl)
read_join prefix sep (n ∷ names) r hs h ne =
    rw
      (
        ==_refl prefix,
        append_assoc (quote_identifier n) (join_rest (quoted_all names) (sep ∷ [])) r,
        read-quote_identifier n _ (NotAhead-join_rest sep names r hs h),
      )
      (then_read-some (λ x. read_names (separators sep names) x) n _ names r
        (read_join_rest sep names r hs h))

-- An expression that `joinQuoted` writes is read back as exactly the names it was given, each
-- behind the prefix or a separator, and the reader stops where the expression ends; no name is
-- blank. The separator is no backtick, and no backtick follows.
pub read-join_quoted :
    (prefix sep : ℕ) (names : List Str) (what t r : Str)
    → (sep == backtick) ≡ false
    → NotAhead backtick r
    → join_quoted (prefix ∷ []) (sep ∷ []) names what ≡ ok t
    → (read_names (leads prefix sep names) (t ++ r) ≡ some (names, r)) × All NotBlank names
unfolding join_quoted
read-join_quoted prefix sep [] what t r hs h e = (rw (← ok_inj e) (unfold read_names in refl), tt)
read-join_quoted prefix sep (n ∷ names) what t r hs h e =
    elim (Result-cases (quote_names (n ∷ names) what)) [
      | inl (qs, q) ↦
          let (clear, same) = quote_names-ok (n ∷ names) what qs q in
          (
            rw (← ok_inj (rw q at e), same)
                (read_join prefix sep (n ∷ names) r hs h (cons-ne-nil n names)),
            clear,
          )
      | inr (x, q) ↦ absurd (cc (rw q at e))
    ]
