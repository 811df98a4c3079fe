-- ===== src/Patterns/Accepts.antt =====
-- What a pattern that match-pattern accepts looks like, by the aliases of its nodes.
pub mod Pattern
use neo4j_mcp_canary.Prelude.{
  ℕ, zero, suc, ◌+◌, ◌<◌, false, List, [], ◌∷◌, some, ◌≡◌, ◌⊎◌, inl, inr, refl, sym, ◌∙◌, arith,
  length, get_elem?, Bool-cases, ◌↔◌, some_inj,
}
use neo4j_mcp_canary.Text.{Str, ◌==s◌, trim_space}
use neo4j_mcp_canary.Text.Laws.{==s_iff, ==s_refl}
use neo4j_mcp_canary.Graphutil.Error.{ok, ok_inj}
use neo4j_mcp_canary.Patterns.Connected.{Ends, index_of, check_connected}
use neo4j_mcp_canary.Patterns.Connected.Invariant.{Linked, Linked-map}
use neo4j_mcp_canary.Patterns.Connected.Correct.{
  EdgeOf, AllDefined, IndicesBelow, check_connected_lem,
}
use neo4j_mcp_canary.Patterns.MatchPattern.{is_defined, collect_aliases}

-- A round of the loop that did not fail.
collect_round :
    (b : Str) (names : List Str) (i : ℕ) (m m' : List (Str × ℕ))
    → collect_aliases i (b ∷ names) m ≡ ok m'
    → (collect_aliases (suc i) names ((b, i) ∷ m) ≡ ok m') × (is_defined (index_of b m) ≡ false)
unfolding collect_aliases
collect_round b names i m m' h = elim (Bool-cases (trim_space b ==s [])) [
  | inl e ↦ absurd (let h' = rw e at h in cc)
  | inr e ↦ elim (Bool-cases (is_defined (index_of b m))) [
    | inl e' ↦ absurd (let h' = rw (e, e') at h in cc)
    | inr e' ↦ (rw (e, e') at h, e')
  ]
]

-- An index of the finished map was there before, or is that of a name of the list.
aliases_sound :
    (names : List Str) (i : ℕ) (m m' : List (Str × ℕ))
    → collect_aliases i names m ≡ ok m'
    → (a : Str) (j : ℕ) → index_of a m' ≡ some j
    → (index_of a m ≡ some j) ⊎ ((k : ℕ) × (j ≡ i + k) × (get_elem? names k ≡ some a))
unfolding collect_aliases index_of
aliases_sound [] i m m' h a j at = inl (rw (ok_inj h) at)
aliases_sound (b ∷ names) i m m' h a j at =
    let (h', fresh) = collect_round b names i m m' h in
    elim (aliases_sound names (suc i) ((b, i) ∷ m) m' h' a j at) [
      | inr (k, same, found) ↦ inr (suc k, omega arith, found)
      | inl t ↦ elim (Bool-cases (a ==s b)) [
        | inl q ↦ inr (0, omega (arith, some_inj (rw q at t)), rw ((==s_iff a b).0 q))
        | inr q ↦ inl (rw q at t)
      ]
    ]

-- An index that is in the map stays.
aliases_keep :
    (names : List Str) (i : ℕ) (m m' : List (Str × ℕ))
    → collect_aliases i names m ≡ ok m'
    → (a : Str) (j : ℕ) → index_of a m ≡ some j
    → index_of a m' ≡ some j
unfolding collect_aliases index_of
aliases_keep [] i m m' h a j at = rw (← ok_inj h) at
aliases_keep (b ∷ names) i m m' h a j at =
    let (h', fresh) = collect_round b names i m m' h in
    aliases_keep names (suc i) ((b, i) ∷ m) m' h' a j (elim (Bool-cases (a ==s b)) [
      | inl q ↦ let used = rw (← (==s_iff a b).0 q, at) at fresh in absurd (cc)
      | inr q ↦ rw q at
    ])

-- The map of a successful loop has every name at its index.
aliases_complete :
    (names : List Str) (i : ℕ) (m m' : List (Str × ℕ))
    → collect_aliases i names m ≡ ok m'
    → (a : Str) (k : ℕ) → get_elem? names k ≡ some a
    → index_of a m' ≡ some (i + k)
unfolding index_of
aliases_complete [] i m m' h a k found = absurd (cc)
aliases_complete (b ∷ names) i m m' h a zero found =
    let (h', fresh) = collect_round b names i m m' h in
    rw (let e : i + 0 ≡ i = omega arith in e) (
      aliases_keep names (suc i) ((b, i) ∷ m) m' h' a i
        (rw (some_inj found) (rw (==s_refl a) refl)))
aliases_complete (b ∷ names) i m m' h a (suc k) found =
    let (h', fresh) = collect_round b names i m m' h in
    rw (let e : i + suc k ≡ suc i + k = omega arith in e)
      (aliases_complete names (suc i) ((b, i) ∷ m) m' h' a k found)

get_elem?_below :
    (names : List Str) (k : ℕ) (a : Str) → get_elem? names k ≡ some a → k < length names
get_elem?_below [] k a h = absurd (cc)
get_elem?_below (b ∷ names) zero a h = omega arith
get_elem?_below (b ∷ names) (suc k) a h = let less = get_elem?_below names k a h in omega arith

-- The relationships between the nodes at two indices.
abbrev pub EdgeAt : List Str → List Ends → ℕ → ℕ → Type 0
EdgeAt names [] x y = ⊥
EdgeAt names (r ∷ rs) x y =
    ((get_elem? names x ≡ some r.from) × (get_elem? names y ≡ some r.to)) ⊎ EdgeAt names rs x y

-- Each relationship ends at nodes of the pattern.
abbrev pub EndsNamed : List Str → List Ends → Type 0
EndsNamed names [] = Unit
EndsNamed names (r ∷ rs) =
    ((x : ℕ) × (get_elem? names x ≡ some r.from))
    × ((y : ℕ) × (get_elem? names y ≡ some r.to))
    × EndsNamed names rs

-- No two nodes have one alias, the relationships end at nodes, and they link every node to the
-- first one.
pub record WellConnected (names : List Str) (rels : List Ends) : Type 0 where
  pub distinct :
      (a : Str) (i j : ℕ) → get_elem? names i ≡ some a → get_elem? names j ≡ some a → i ≡ j
  pub named : EndsNamed names rels
  pub linked : (j : ℕ) → j < length names → Linked (EdgeAt names rels) j 0

module _ (names : List Str) (aliases : List (Str × ℕ))
    (made : collect_aliases 0 names [] ≡ ok aliases) where
  index_lem : (a : Str) (j : ℕ) → index_of a aliases ≡ some j → get_elem? names j ≡ some a
  unfolding index_of
  index_lem a j at = elim (aliases_sound names 0 [] aliases made a j at) [
    | inl t ↦ absurd (cc)
    | inr (k, same, found) ↦ rw (let e : j ≡ k = omega arith in e) found
  ]

  at_index : (a : Str) (k : ℕ) → get_elem? names k ≡ some a → index_of a aliases ≡ some k
  at_index a k found =
      rw (let e : k ≡ 0 + k = omega arith in e) (aliases_complete names 0 [] aliases made a k found)

  EdgeOf-EdgeAt : (rs : List Ends) (x y : ℕ) → EdgeOf aliases rs x y → EdgeAt names rs x y
  EdgeOf-EdgeAt [] x y t = t
  EdgeOf-EdgeAt (r ∷ rs) x y (inl (s, t)) = inl (index_lem r.from x s, index_lem r.to y t)
  EdgeOf-EdgeAt (r ∷ rs) x y (inr t) = inr (EdgeOf-EdgeAt rs x y t)

  EdgeAt-EdgeOf : (rs : List Ends) (x y : ℕ) → EdgeAt names rs x y → EdgeOf aliases rs x y
  EdgeAt-EdgeOf [] x y t = t
  EdgeAt-EdgeOf (r ∷ rs) x y (inl (s, t)) = inl (at_index r.from x s, at_index r.to y t)
  EdgeAt-EdgeOf (r ∷ rs) x y (inr t) = inr (EdgeAt-EdgeOf rs x y t)

  AllDefined-EndsNamed : (rs : List Ends) → AllDefined aliases rs → EndsNamed names rs
  AllDefined-EndsNamed [] h = tt
  AllDefined-EndsNamed (r ∷ rs) ((x, s), (y, t), h) =
      ((x, index_lem r.from x s), (y, index_lem r.to y t), AllDefined-EndsNamed rs h)

  EndsNamed-AllDefined : (rs : List Ends) → EndsNamed names rs → AllDefined aliases rs
  EndsNamed-AllDefined [] h = tt
  EndsNamed-AllDefined (r ∷ rs) ((x, s), (y, t), h) =
      ((x, at_index r.from x s), (y, at_index r.to y t), EndsNamed-AllDefined rs h)

  below : IndicesBelow (length names) aliases
  below a i at = get_elem?_below names i a (index_lem a i at)

  -- checkConnected, on the alias map that the loop over the nodes made without an error, accepts
  -- exactly the patterns whose aliases are distinct, whose relationships end at nodes of the
  -- pattern, and whose relationships link every node to the first one.
  pub check_connected_iff :
      (rels : List Ends) → (check_connected names rels aliases ≡ ok tt) ↔ WellConnected names rels
  check_connected_iff rels = (
    λ h.
        let (defined, linked) = (check_connected_lem names rels aliases below).0 h in
        record {
          distinct = λ a i j at_i at_j. some_inj (sym (at_index a i at_i) ∙ at_index a j at_j);
          named = AllDefined-EndsNamed rels defined;
          linked = λ j lt. Linked-map (EdgeOf-EdgeAt rels) (linked j lt);
        },
    λ w. (check_connected_lem names rels aliases below).1 (
      EndsNamed-AllDefined rels w.named,
      λ j lt. Linked-map (EdgeAt-EdgeOf rels) (w.linked j lt),
    ),
  )
