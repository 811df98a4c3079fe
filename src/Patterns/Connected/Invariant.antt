-- ===== src/Patterns/Connected/Invariant.antt =====
-- The invariant of the union-find: two nodes have one root exactly when the relationships handled
-- so far link them.
use mathlib.Core.Path.{subst}
use neo4j_mcp_canary.Prelude.{ℕ, ◌≤◌, List, ◌≡◌, sym, ◌∙◌, arith}
use neo4j_mcp_canary.Patterns.Connected.Forest.{Reaches, Reaches-unique, InRange, Keeps}

-- The equivalence that a relation generates.
pub data Linked (E : ℕ → ℕ → Type 0) : ℕ → ℕ → Type 0 where
  self : (x : ℕ) → Linked E x x
  edge : {x y : ℕ} → E x y → Linked E x y
  back : {x y : ℕ} → Linked E x y → Linked E y x
  via : {x y z : ℕ} → Linked E x y → Linked E y z → Linked E x z

module _ {E F : ℕ → ℕ → Type 0} (f : (x y : ℕ) → E x y → F x y) where
  pub Linked-map : {x y : ℕ} → Linked E x y → Linked F x y
  Linked-map (self x) = self x
  Linked-map (edge {x} {y} e) = edge (f x y e)
  Linked-map (back l) = back (Linked-map l)
  Linked-map (via l m) = via (Linked-map l) (Linked-map m)

pub record Inv (k : ℕ) (E : ℕ → ℕ → Type 0) (p : List ℕ) : Type 0 where
  pub root : (x : ℕ) → (r : ℕ) × (d : ℕ) × (d ≤ k) × Reaches p d x r
  pub inside : InRange p
  pub sound : (d x r : ℕ) → Reaches p d x r → Linked E x r
  pub complete : (x y d r e s : ℕ) → E x y → Reaches p d x r → Reaches p e y s → r ≡ s

-- Linked nodes have one root.
pub Linked-root :
    {k : ℕ} {E : ℕ → ℕ → Type 0} {p : List ℕ} (inv : Inv k E p) {x y : ℕ} (l : Linked E x y)
    (d r e s : ℕ)
    → Reaches p d x r
    → Reaches p e y s
    → r ≡ s
Linked-root {p = p} inv (self x) d r e s h h' = (Reaches-unique p d e x r s h h').1
Linked-root inv (edge {x} {y} t) d r e s h h' = inv.complete x y d r e s t h h'
Linked-root inv (back l) d r e s h h' = sym (Linked-root inv l e s d r h' h)
Linked-root inv (via {y = y} l m) d r e s h h' =
    let (q, f, le, c) = inv.root y in Linked-root inv l d r f q h c ∙ Linked-root inv m f q e s c h'

pub Inv-map :
    {k : ℕ} {E F : ℕ → ℕ → Type 0} {p : List ℕ}
    → ((x y : ℕ) → E x y → F x y)
    → ((x y : ℕ) → F x y → E x y)
    → Inv k E p
    → Inv k F p
Inv-map f g inv = record {
  root = inv.root;
  inside = inv.inside;
  sound = λ d x r h. Linked-map f (inv.sound d x r h);
  complete = λ x y d r e s t. inv.complete x y d r e s (g x y t);
}

-- A forest with the same roots has the invariant too.
pub Inv-Keeps : {k : ℕ} {E : ℕ → ℕ → Type 0} {p q : List ℕ} → Keeps p q → Inv k E p → Inv k E q
Inv-Keeps {E = E} {p = p} {q = q} keeps inv = record {
  root = λ x.
      let (r, d, le, c) = inv.root x in
      let (e, le', c') = keeps.chain d x r c in (r, e, omega arith, c');
  inside = keeps.inside inv.inside;
  sound = λ d x r h.
      let (r', d', le, c) = inv.root x in
      let (e, le', c') = keeps.chain d' x r' c in
      subst (λ z. Linked E x z) (Reaches-unique q e d x r' r c' h).1 (inv.sound d' x r' c);
  complete = λ x y d r e s t h h'.
      let (r1, d1, le, c) = inv.root x in
      let (s1, e1, le', c') = inv.root y in
      let (d2, l2, c2) = keeps.chain d1 x r1 c in
      let (e2, l3, c3) = keeps.chain e1 y s1 c' in
      (Reaches-unique q d d2 x r r1 h c2).1
      ∙ (inv.complete x y d1 r1 e1 s1 t c c' ∙ (Reaches-unique q e2 e y s1 s c3 h').1);
}
