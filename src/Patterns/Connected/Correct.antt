-- ===== src/Patterns/Connected/Correct.antt =====
-- `checkConnected` as a whole, by the indices of the alias map.
use mathlib.Core.Path.{subst}
use native.Mathlib.Decide.{ℕ_discrete}
use neo4j_mcp_canary.Prelude.{
  ℕ, zero, suc, ◌+◌, ◌<◌, ◌≤◌, List, [], ◌∷◌, some, ◌≡◌, ◌⊎◌, inl, inr, refl, sym, ap, ◌∙◌, arith,
  length, get_or, Bool-cases, Option-cases, ◌==◌, ==_iff, ◌↔◌, some_inj,
}
use neo4j_mcp_canary.Text.{Str}
use neo4j_mcp_canary.Graphutil.Error.{Result, ok, Result-cases}
use neo4j_mcp_canary.Patterns.Connected.{
  identity_from, find, index_of, unite, Ends, unite_all, check_roots, check_root, then_check,
  check_connected,
}
use neo4j_mcp_canary.Patterns.Connected.Find.{find_lem}
use neo4j_mcp_canary.Patterns.Connected.Forest.{Reaches}
use neo4j_mcp_canary.Patterns.Connected.Invariant.{
  Linked, self, back, via, Inv, Inv-map, Inv-Keeps, Linked-root,
}
use neo4j_mcp_canary.Patterns.Connected.Hang.{With, Inv-unite}

-- Some relationship joins the two nodes.
abbrev pub EdgeOf : List (Str × ℕ) → List Ends → ℕ → ℕ → Type 0
EdgeOf aliases [] x y = ⊥
EdgeOf aliases (r ∷ rs) x y =
    ((index_of r.from aliases ≡ some x) × (index_of r.to aliases ≡ some y)) ⊎ EdgeOf aliases rs x y

-- The ends of every relationship are aliases of nodes.
abbrev pub AllDefined : List (Str × ℕ) → List Ends → Type 0
AllDefined aliases [] = Unit
AllDefined aliases (r ∷ rs) =
    ((x : ℕ) × (index_of r.from aliases ≡ some x))
    × ((y : ℕ) × (index_of r.to aliases ≡ some y))
    × AllDefined aliases rs

-- The indices of the aliases are below `n`.
abbrev pub IndicesBelow : ℕ → List (Str × ℕ) → Type 0
IndicesBelow n aliases = (a : Str) (i : ℕ) → index_of a aliases ≡ some i → i < n

identity_lem : (i n x y : ℕ) → i + x ≡ y → get_or (identity_from i n) x y ≡ y
unfolding identity_from
identity_lem i zero x y h = refl
identity_lem i (suc n) zero y h = omega arith
identity_lem i (suc n) (suc x) y h = identity_lem (suc i) n x y (omega arith)

length-identity_from : (i n : ℕ) → length (identity_from i n) ≡ n
unfolding identity_from
length-identity_from i zero = refl
length-identity_from i (suc n) = ap suc (length-identity_from (suc i) n)

-- At first every node is a root.
Inv-identity : (n : ℕ) → Inv 0 (λ x y. ⊥) (identity_from 0 n)
Inv-identity n = record {
  root = λ x. (x, 0, omega arith, (identity_lem 0 n x x (omega arith), refl));
  inside = λ x lt.
      subst (λ z. z < length (identity_from 0 n)) (sym (identity_lem 0 n x x (omega arith))) lt;
  sound = λ d x r c. first_sound d x r c;
  complete = λ x y d r e s t. elim t [ ];
}
  where
    first_sound : (d x r : ℕ) → Reaches (identity_from 0 n) d x r → Linked (λ x y. ⊥) x r
    first_sound zero x r (h, e) = subst (λ z. Linked (λ x y. ⊥) x z) e (self x)
    first_sound (suc d) x r (h, c) = absurd (h (identity_lem 0 n x x (omega arith)))

-- The loop over the relationships makes a forest of their edges, if the aliases are defined.
unite_all_lem :
    {n : ℕ} (aliases : List (Str × ℕ)) (below : IndicesBelow n aliases) (rs : List Ends) {k : ℕ}
    {E : ℕ → ℕ → Type 0} {p : List ℕ} (inv : Inv k E p) (fuel i : ℕ)
    → length p ≡ n
    → k + length rs < fuel
    → AllDefined aliases rs
    → (q : List ℕ) × (unite_all fuel aliases i rs p ≡ ok q)
      × Inv (k + length rs) (λ x y. E x y ⊎ EdgeOf aliases rs x y) q
unfolding unite_all
unite_all_lem {n = n} aliases below [] {k} {E} {p} inv fuel i size lt defined = (
  p,
  refl,
  subst (λ z. Inv z (λ x y. E x y ⊎ ⊥) p) (let e : k ≡ k + 0 = omega arith in e)
      (Inv-map (λ x y t. inl t) (λ x y t. elim t [ inl s ↦ s | inr h ↦ elim h [ ] ]) inv),
)
unite_all_lem {n = n} aliases below (r ∷ rs) {k} {E} {p} inv fuel i size lt
      ((x, at_x), (y, at_y), defined) =
    let x_below = below r.from x at_x in
    let y_below = below r.to y at_y in
    let (inv', size') =
      Inv-unite inv fuel x y (omega arith) (subst (λ z. x < z) (sym size) x_below)
        (subst (λ z. y < z) (sym size) y_below) in
    let (q, made, inv'') =
      unite_all_lem aliases below rs inv' fuel (suc i) (size' ∙ size) (omega arith) defined in
    (
      q,
      rw (at_x, at_y) made,
      subst (λ z. Inv z (λ u v. E u v ⊎ EdgeOf aliases (r ∷ rs) u v) q)
          (let e : suc k + length rs ≡ k + suc (length rs) = omega arith in e)
          (Inv-map (λ u v t. forth u v t) (λ u v t. back' u v t) inv''),
    )
  where
    forth : (u v : ℕ) → With E x y u v ⊎ EdgeOf aliases rs u v → E u v ⊎ EdgeOf aliases (r ∷ rs) u v
    forth u v (inl (inl t)) = inl t
    forth u v (inl (inr (h, h'))) = inr (inl (at_x ∙ ap some (sym h), at_y ∙ ap some (sym h')))
    forth u v (inr t) = inr (inr t)

    back' : (u v : ℕ) → E u v ⊎ EdgeOf aliases (r ∷ rs) u v → With E x y u v ⊎ EdgeOf aliases rs u v
    back' u v (inl t) = inl (inl t)
    back' u v (inr (inl (h, h'))) = inl (inr (some_inj (sym h ∙ at_x), some_inj (sym h' ∙ at_y)))
    back' u v (inr (inr t)) = inr t

-- A successful loop has looked up every alias.
unite_all_defined :
    (aliases : List (Str × ℕ)) (rs : List Ends) (fuel i : ℕ) (p q : List ℕ)
    → unite_all fuel aliases i rs p ≡ ok q
    → AllDefined aliases rs
unfolding unite_all
unite_all_defined aliases [] fuel i p q h = tt
unite_all_defined aliases (r ∷ rs) fuel i p q h = elim (Option-cases (index_of r.from aliases)) [
  | inl e ↦ absurd (let h' = rw e at h in cc)
  | inr (x, e) ↦ elim (Option-cases (index_of r.to aliases)) [
    | inl e' ↦ absurd (let h' = rw (e, e') at h in cc)
    | inr (y, e') ↦
        let h' = rw (e, e') at h in
        ((x, e), (y, e'), unite_all_defined aliases rs fuel (suc i) (unite fuel p x y) q h')
  ]
]

-- The loop over the nodes succeeds exactly when each has the root of node 0.
check_roots_lem :
    {k : ℕ} {E : ℕ → ℕ → Type 0} (names : List Str) {p : List ℕ} (inv : Inv k E p)
    (fuel root d i : ℕ)
    → k < fuel
    → Reaches p d 0 root
    → (check_roots fuel root i names p ≡ ok tt)
      ↔ ((j : ℕ) → i ≤ j → j < i + length names → Linked E j 0)
unfolding check_roots
check_roots_lem [] inv fuel root d i lt c = (λ h j le less. absurd (omega arith), λ h. refl)
check_roots_lem {k = k} {E = E} (a ∷ names) {p} inv fuel root d i lt c =
    let (r, e, le, at_i) = inv.root i in
    let (found, keeps) = find_lem fuel p e i r (omega arith) at_i in
    let (d', l', c') = keeps.chain d 0 root c in
    let rest = check_roots_lem names (Inv-Keeps keeps inv) fuel root d' (suc i) lt c' in
    elim (Bool-cases ((find fuel p i).0 == root)) [
      | inl q ↦
          let same = (==_iff (find fuel p i).0 root).0 q in
          let linked : Linked E i 0 =
            via (subst (λ z. Linked E i z) (sym found ∙ same) (inv.sound e i r at_i))
              (back (inv.sound d 0 root c)) in
          rw q (
            (
              λ h j below above. at_or_after linked (rest.0 h) j below above,
              λ h. rest.1 (λ j below above. h j (omega arith) (omega arith)),
            ))
      | inr q ↦ rw q (
          (
            λ h. absurd (let h' = h in cc),
            λ h.
                let linked = h i (omega arith) (omega arith) in
                let same = Linked-root inv linked e r d root at_i c in
                absurd (let t = (==_iff (find fuel p i).0 root).1 (found ∙ same) in cc),
          ))
    ]
  where
    at_or_after :
        Linked E i 0
        → ((j : ℕ) → suc i ≤ j → j < suc i + length names → Linked E j 0)
        → (j : ℕ) → i ≤ j
        → j < i + suc (length names)
        → Linked E j 0
    at_or_after l f j below above = elim (ℕ_discrete i j) [
      | yes q ↦ subst (λ z. Linked E z 0) q l
      | no q ↦ f j (omega arith) (omega arith)
    ]

-- checkConnected accepts a pattern exactly when every relationship names two nodes and every node
-- is linked to the first one by relationships; the fuel of the model is never used up.
pub check_connected_lem :
    (names : List Str) (rels : List Ends) (aliases : List (Str × ℕ))
    → IndicesBelow (length names) aliases
    → (check_connected names rels aliases ≡ ok tt)
      ↔ (AllDefined aliases rels × ((j : ℕ) → j < length names → Linked (EdgeOf aliases rels) j 0))
unfolding check_connected check_root
check_connected_lem names rels aliases below = (
  λ h. elim (Result-cases made) [
    | inl (q, e) ↦
        let defined = unite_all_defined aliases rels fuel 0 start q e in
        (defined, (whole defined).0 h)
    | inr (x, e) ↦ absurd (let h' = rw e at h in cc)
  ],
  λ (defined, linked). (whole defined).1 linked,
)
  where
    fuel : ℕ
    fuel = suc (suc (length rels))

    start : List ℕ
    start = identity_from 0 (length names)

    made : Result (List ℕ)
    made = unite_all fuel aliases 0 rels start

    whole :
        AllDefined aliases rels
        → (then_check fuel names made ≡ ok tt)
          ↔ ((j : ℕ) → j < length names → Linked (EdgeOf aliases rels) j 0)
    whole defined =
        let (q, e, inv) =
          unite_all_lem aliases below rels (Inv-identity (length names)) fuel 0
            (length-identity_from 0 (length names)) (omega arith) defined in
        let inv' =
          Inv-map (λ u v t. elim t [ inl h ↦ elim h [ ] | inr s ↦ s ]) (λ u v t. inr t) inv in
        let (root, d, le, c) = inv'.root 0 in
        let (found, keeps) = find_lem fuel q d 0 root (omega arith) c in
        let (d', le', c') = keeps.chain d 0 root c in
        let all = check_roots_lem names (Inv-Keeps keeps inv') fuel root d' 0 (omega arith) c' in
        rw (e, found)
          ((
            λ h j lt. all.0 h j (omega arith) (omega arith),
            λ h. all.1 (λ j below' above. h j (omega arith)),
          ))
