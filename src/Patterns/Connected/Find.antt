-- ===== src/Patterns/Connected/Find.antt =====
-- `find` with path halving on a forest.
use neo4j_mcp_canary.Prelude.{
  ℕ, zero, suc, ◌<◌, ◌≤◌, List, ◌≡◌, ◌≢◌, arith, set, ==_iff, false, ◌==◌,
}
use neo4j_mcp_canary.Patterns.Connected.{parent_of, find}
use neo4j_mcp_canary.Patterns.Connected.Forest.{
  Reaches, Keeps, Keeps-refl, Keeps-trans, Keeps-halved,
}

pub ==_ne : (a b : ℕ) → a ≢ b → (a == b) ≡ false
==_ne a b h = ground arith

-- The chain of the grandparent, in the forest whose path is halved.
grand_chain :
    (p : List ℕ) (x : ℕ) (inner : parent_of p x ≢ x) (d r : ℕ)
    → Reaches p d (parent_of p x) r
    → (e : ℕ) × (e ≤ d)
      × Reaches (set p x (parent_of p (parent_of p x))) e (parent_of p (parent_of p x)) r
grand_chain p x inner zero r (h, a) =
    (Keeps-halved p x inner).chain 0 (parent_of p (parent_of p x)) r (rw h (h, a))
grand_chain p x inner (suc d) r (h, c) =
    let (e, le, c') = (Keeps-halved p x inner).chain d (parent_of p (parent_of p x)) r c in
    (e, omega arith, c')

pub find_lem :
    (fuel : ℕ) (p : List ℕ) (d x r : ℕ)
    → d < fuel
    → Reaches p d x r
    → ((find fuel p x).0 ≡ r) × Keeps p (find fuel p x).1
unfolding find
find_lem zero p d x r lt h = elim lt [ ]
find_lem (suc fuel) p zero x r lt (h, a) = rw ((==_iff (parent_of p x) x).1 h) (a, Keeps-refl p)
find_lem (suc fuel) p (suc d) x r lt (h, c) =
    let (e, le, c') = grand_chain p x h d r c in
    let (root, keeps) =
      find_lem fuel (set p x (parent_of p (parent_of p x))) e (parent_of p (parent_of p x)) r
        (omega arith) c' in
    rw (==_ne (parent_of p x) x h) (root, Keeps-trans (Keeps-halved p x h) keeps)
