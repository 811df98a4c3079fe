-- ===== src/Patterns/Connected/Hang.antt =====
-- A union: the root of one tree is hung under the root of another.
use mathlib.Core.Path.{subst}
use native.Mathlib.Decide.{ℕ_discrete}
use neo4j_mcp_canary.Prelude.{
  ℕ, zero, suc, ◌<◌, ◌≤◌, List, [], ◌∷◌, ◌≡◌, ◌≢◌, ◌⊎◌, inl, inr, refl, sym, ap, ◌∙◌, arith, length,
  set, get_or, get_or-set_self, get_or-set_ne, length-set,
}
use neo4j_mcp_canary.Patterns.Connected.{parent_of, find, unite}
use neo4j_mcp_canary.Patterns.Connected.Find.{find_lem}
use neo4j_mcp_canary.Patterns.Connected.Forest.{
  Reaches, Reaches-unique, Reaches-root, InRange, hung_under, hung_apart,
}
use neo4j_mcp_canary.Patterns.Connected.Invariant.{
  Linked, edge, back, via, Linked-map, Inv, Inv-Keeps,
}

set_same : (xs : List ℕ) (i d : ℕ) → set xs i (get_or xs i d) ≡ xs
set_same [] i d = refl
set_same (x ∷ xs) zero d = refl
set_same (x ∷ xs) (suc i) d = ap (λ l. x ∷ l) (set_same xs i d)

-- A root is in range if its node is.
root_inside : (p : List ℕ) (d x r : ℕ) → InRange p → x < length p → Reaches p d x r → r < length p
root_inside p zero x r h lt (e, q) = subst (λ z. z < length p) q lt
root_inside p (suc d) x r h lt (e, c) = root_inside p d (parent_of p x) r h (h x lt) c

-- Hanging one root under another links their nodes, and nothing else.
module _ {k : ℕ} {E : ℕ → ℕ → Type 0} {p : List ℕ} (inv : Inv k E p) (x y : ℕ) (d e a b : ℕ)
    (at_a : Reaches p d x a) (at_b : Reaches p e y b) (inside_a : a < length p)
    (inside_b : b < length p) where
  abbrev Joined : ℕ → ℕ → Type 0
  Joined u v = E u v ⊎ ((u ≡ x) × (v ≡ y))

  root_a : parent_of p a ≡ a
  root_a = Reaches-root p d x a at_a

  root_b : parent_of p b ≡ b
  root_b = Reaches-root p e y b at_b

  -- The root that a node has afterwards.
  abbrev NewRoot : ℕ → ℕ → ℕ → Type 0
  NewRoot w r s = ((r ≡ a) × (s ≡ b)) ⊎ ((r ≢ a) × (s ≡ r))

  module _ (apart : a ≢ b) where
    hang_root :
        (w : ℕ)
        → (r : ℕ) × (s : ℕ) × (f : ℕ) × (g : ℕ) × (g ≤ suc k)
          × Reaches p f w r
          × Reaches (set p a b) g w s
          × NewRoot w r s
    hang_root w =
        let (r, f, le, c) = inv.root w in
        elim (ℕ_discrete r a) [
          | yes q ↦
              let c' = subst (λ z. Reaches p f w z) q c in
              (
                r,
                b,
                f,
                suc f,
                omega arith,
                c,
                hung_under p a b root_a root_b apart inside_a f w c',
                inl (q, refl),
              )
          | no q ↦ (
            r,
            r,
            f,
            f,
            omega arith,
            c,
            hung_apart p a b root_a root_b apart inside_a f w r q c,
            inr (q, refl),
          )
        ]

    hang_inside : InRange p → InRange (set p a b)
    hang_inside h z lt = elim (ℕ_discrete a z) [
      | yes q ↦ omega (
        arith,
        subst (λ w. parent_of (set p a b) w ≡ b) q (get_or-set_self p a b a inside_a),
        length-set p a b,
      )
      | no q ↦ omega (
        arith,
        get_or-set_ne p a z b z q,
        length-set p a b,
        h z (omega (arith, length-set p a b)),
      )
    ]

    -- Whatever root a node had, the relation links it to its new one.
    hang_sound_at : (w r s f : ℕ) → Reaches p f w r → NewRoot w r s → Linked Joined w s
    hang_sound_at w r s f c (inl (q, t)) =
        let up : Linked Joined w a =
          Linked-map (λ u v l. inl l) (inv.sound f w a (subst (λ z. Reaches p f w z) q c)) in
        let down : Linked Joined x a = Linked-map (λ u v l. inl l) (inv.sound d x a at_a) in
        let over : Linked Joined x y = edge (inr (refl, refl)) in
        let top : Linked Joined y b = Linked-map (λ u v l. inl l) (inv.sound e y b at_b) in
        subst (λ z. Linked Joined w z) (sym t) (via up (via (back down) (via over top)))
    hang_sound_at w r s f c (inr (q, t)) =
        subst (λ z. Linked Joined w z) (sym t) (Linked-map (λ u v l. inl l) (inv.sound f w r c))

    -- Equal roots have equal new roots.
    NewRoot-same : (u v r s t : ℕ) → NewRoot u r s → NewRoot v r t → s ≡ t
    NewRoot-same u v r s t (inl (q, h)) (inl (q', h')) = cc
    NewRoot-same u v r s t (inl (q, h)) (inr (q', h')) = absurd (q' q)
    NewRoot-same u v r s t (inr (q, h)) (inl (q', h')) = absurd (q q')
    NewRoot-same u v r s t (inr (q, h)) (inr (q', h')) = cc

    NewRoot-x : (u s : ℕ) → NewRoot u a s → s ≡ b
    NewRoot-x u s (inl (q, h)) = h
    NewRoot-x u s (inr (q, h)) = absurd (q refl)

    NewRoot-y : (u s : ℕ) → NewRoot u b s → s ≡ b
    NewRoot-y u s (inl (q, h)) = h
    NewRoot-y u s (inr (q, h)) = h

    -- The new root of a node, from its old and its new chain.
    at_new : (u f r g s : ℕ) → Reaches p f u r → Reaches (set p a b) g u s → NewRoot u r s
    at_new u f r g s c c' =
        let (r', s', f', g', le, h, h', n) = hang_root u in
        subst (λ z. NewRoot u r z) (Reaches-unique (set p a b) g' g u s' s h' c').1
          (subst (λ z. NewRoot u z s') (Reaches-unique p f' f u r' r h c).1 n)

    hang_complete :
        (u v f r g s : ℕ)
        → Joined u v
        → Reaches (set p a b) f u r
        → Reaches (set p a b) g v s
        → r ≡ s
    hang_complete u v f r g s (inl t) c c' =
        let (r1, f1, le, h) = inv.root u in
        let (s1, g1, le', h') = inv.root v in
        let same = inv.complete u v f1 r1 g1 s1 t h h' in
        NewRoot-same u v r1 r s (at_new u f1 r1 f r h c)
          (subst (λ z. NewRoot v z s) (sym same) (at_new v g1 s1 g s h' c'))
    hang_complete u v f r g s (inr (q, q')) c c' =
        NewRoot-x u r (at_new u d a f r (subst (λ z. Reaches p d z a) (sym q) at_a) c)
        ∙ sym (NewRoot-y v s (at_new v e b g s (subst (λ z. Reaches p e z b) (sym q') at_b) c'))

    Inv-hang : Inv (suc k) Joined (set p a b)
    Inv-hang = record {
      root = λ w. let (r, s, f, g, le, c, c', n) = hang_root w in (s, g, le, c');
      inside = hang_inside inv.inside;
      sound = λ g w s c'.
          let (r, f, le, c) = inv.root w in hang_sound_at w r s f c (at_new w f r g s c c');
      complete = hang_complete;
    }

  -- Nodes that have one root already are linked.
  Inv-same : a ≡ b → Inv (suc k) Joined p
  Inv-same q = record {
    root = λ w. let (r, f, le, c) = inv.root w in (r, f, omega arith, c);
    inside = inv.inside;
    sound = λ g w s c. Linked-map (λ u v l. inl l) (inv.sound g w s c);
    complete = λ u v f r g s t c c'. elim t [
      | inl t ↦ inv.complete u v f r g s t c c'
      | inr (h, h') ↦
          (Reaches-unique p f d u r a c (subst (λ z. Reaches p d z a) (sym h) at_a)).1
          ∙ (q ∙ (Reaches-unique p e g v b s (subst (λ z. Reaches p e z b) (sym h') at_b) c').1)
    ];
  }

  Inv-join : Inv (suc k) Joined (set p a b)
  Inv-join = elim (ℕ_discrete a b) [
    | yes q ↦
        let whole : set p a b ≡ p =
          ap (λ z. set p a z) (sym q) ∙ (ap (λ z. set p a z) (sym root_a) ∙ set_same p a a) in
        subst (λ l. Inv (suc k) Joined l) (sym whole) (Inv-same q)
    | no q ↦ Inv-hang q
  ]

-- The relation with one more edge.
abbrev pub With : (ℕ → ℕ → Type 0) → ℕ → ℕ → ℕ → ℕ → Type 0
With E x y u v = E u v ⊎ ((u ≡ x) × (v ≡ y))

-- `parent[find(from)] = find(to)` adds the edge from `from` to `to`, if the fuel is enough.
pub Inv-unite :
    {k : ℕ} {E : ℕ → ℕ → Type 0} {p : List ℕ} (inv : Inv k E p) (fuel from to : ℕ)
    → k < fuel
    → from < length p
    → to < length p
    → Inv (suc k) (With E from to) (unite fuel p from to)
      × (length (unite fuel p from to) ≡ length p)
unfolding unite
Inv-unite {k = k} {E = E} {p = p} inv fuel from to lt lt_from lt_to =
    let (a, d, le, c) = inv.root from in
    let (root_from, keeps1) = find_lem fuel p d from a (omega arith) c in
    let p1 = (find fuel p from).1 in
    let inv1 = Inv-Keeps keeps1 inv in
    let (b, e, le', c') = inv1.root to in
    let (root_to, keeps2) = find_lem fuel p1 e to b (omega arith) c' in
    let p2 = (find fuel p1 to).1 in
    let inv2 = Inv-Keeps keeps2 inv1 in
    let (d1, l1, c1) = keeps1.chain d from a c in
    let (d2, l2, c2) = keeps2.chain d1 from a c1 in
    let (e2, l3, c3) = keeps2.chain e to b c' in
    let same : length p2 ≡ length p = keeps2.size ∙ keeps1.size in
    let inside_a =
      root_inside p2 d2 from a inv2.inside (subst (λ z. from < z) (sym same) lt_from) c2 in
    let inside_b = root_inside p2 e2 to b inv2.inside (subst (λ z. to < z) (sym same) lt_to) c3 in
    (
      subst (λ z. Inv (suc k) (With E from to) (set p2 z (find fuel p1 to).0)) (sym root_from)
          (subst (λ z. Inv (suc k) (With E from to) (set p2 a z)) (sym root_to)
            (Inv-join inv2 from to d2 e2 a b c2 c3 inside_a inside_b)),
      length-set p2 (find fuel p from).0 (find fuel p1 to).0 ∙ same,
    )
