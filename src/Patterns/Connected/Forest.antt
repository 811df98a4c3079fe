-- ===== src/Patterns/Connected/Forest.antt =====
-- The parent array as a forest: chains of parents that end in a root, and how writes change them.
use mathlib.Core.Path.{subst}
use native.Mathlib.Decide.{ℕ_discrete}
use neo4j_mcp_canary.Prelude.{
  ℕ, zero, suc, ◌<◌, ◌≤◌, List, [], ◌∷◌, ◌≡◌, ◌≢◌, refl, sym, ap, ◌∙◌, arith, length, get_or, set,
  get_or-set_self, get_or-set_ne, length-set,
}
use neo4j_mcp_canary.Patterns.Connected.{parent_of}

-- From `x`, `d` steps along the parents lead to the root `r`, and no fewer steps lead to a root.
abbrev pub Reaches : List ℕ → ℕ → ℕ → ℕ → Type 0
Reaches p zero x r = (parent_of p x ≡ x) × (x ≡ r)
Reaches p (suc d) x r = (parent_of p x ≢ x) × Reaches p d (parent_of p x) r

-- The depth and the root are determined.
pub Reaches-unique :
    (p : List ℕ) (d e x r s : ℕ) → Reaches p d x r → Reaches p e x s → (d ≡ e) × (r ≡ s)
Reaches-unique p zero zero x r s (h, a) (k, b) = (refl, sym a ∙ b)
Reaches-unique p zero (suc e) x r s (h, a) (k, b) = absurd (k h)
Reaches-unique p (suc d) zero x r s (h, a) (k, b) = absurd (h k)
Reaches-unique p (suc d) (suc e) x r s (h, a) (k, b) =
    let (same, root) = Reaches-unique p d e (parent_of p x) r s a b in (ap suc same, root)

-- The end of a chain is a root.
pub Reaches-root : (p : List ℕ) (d x r : ℕ) → Reaches p d x r → parent_of p r ≡ r
Reaches-root p zero x r (h, a) = cc
Reaches-root p (suc d) x r (h, a) = Reaches-root p d (parent_of p x) r a

get_or_range : (q : List ℕ) (i d : ℕ) → get_or q i d ≢ d → i < length q
get_or_range [] i d k = absurd (k refl)
get_or_range (y ∷ ys) zero d k = omega arith
get_or_range (y ∷ ys) (suc i) d k = let less = get_or_range ys i d k in omega arith

-- An index that is no root is in range.
pub in_range : (p : List ℕ) (x : ℕ) → parent_of p x ≢ x → x < length p
in_range p x = get_or_range p x x

-- Parents of indices are indices.
abbrev pub InRange : List ℕ → Type 0
InRange p = (x : ℕ) → x < length p → parent_of p x < length p

-- `q` has every root of `p`, and no chain is longer.
pub record Keeps (p q : List ℕ) : Type 0 where
  pub chain : (d x r : ℕ) → Reaches p d x r → (e : ℕ) × (e ≤ d) × Reaches q e x r
  pub size : length q ≡ length p
  pub inside : InRange p → InRange q

pub Keeps-refl : (p : List ℕ) → Keeps p p
Keeps-refl p = record { chain = λ d x r h. (d, omega arith, h); size = refl; inside = λ h. h }

pub Keeps-trans : {p q s : List ℕ} → Keeps p q → Keeps q s → Keeps p s
Keeps-trans h k = record {
  chain = λ d x r c.
      let (e, le, c') = h.chain d x r c in
      let (f, le', c'') = k.chain e x r c' in (f, omega arith, c'');
  size = k.size ∙ h.size;
  inside = λ w. k.inside (h.inside w);
}

module _ (p : List ℕ) (x : ℕ) (inner : parent_of p x ≢ x) where
  abbrev halved : List ℕ
  halved = set p x (parent_of p (parent_of p x))

  at_x : parent_of halved x ≡ parent_of p (parent_of p x)
  at_x = get_or-set_self p x _ x (in_range p x inner)

  elsewhere : (y : ℕ) → x ≢ y → parent_of halved y ≡ parent_of p y
  elsewhere y h = get_or-set_ne p x y _ y h

  chain_to_root : (r : ℕ) → Reaches p 0 (parent_of p x) r → Reaches halved 1 x r
  chain_to_root r (a, b) =
      let same = at_x ∙ a in
      (
        λ q. inner (sym same ∙ q),
        (rw same (elsewhere (parent_of p x) (λ q. inner (sym q)) ∙ a), same ∙ b),
      )

  -- The grandparent of an inner node two steps from the root is another node.
  grand_ne : (d r : ℕ) → Reaches p (suc d) (parent_of p x) r → parent_of p (parent_of p x) ≢ x
  grand_ne d r (h, c) q =
      let whole : Reaches p (suc (suc d)) x r = (inner, (h, c)) in
      let part : Reaches p d x r = subst (λ z. Reaches p d z r) q c in
      absurd (omega (arith, (Reaches-unique p (suc (suc d)) d x r r whole part).0))

  chain_to_grand :
      (d e r : ℕ)
      → Reaches p (suc d) (parent_of p x) r
      → Reaches halved e (parent_of p (parent_of p x)) r
      → Reaches halved (suc e) x r
  chain_to_grand d e r c h =
      (λ q. grand_ne d r c (sym at_x ∙ q), subst (λ z. Reaches halved e z r) (sym at_x) h)

  halve_chain : (d y r : ℕ) → Reaches p d y r → (e : ℕ) × (e ≤ d) × Reaches halved e y r
  halve_chain zero y r (h, a) = (0, omega arith, (elsewhere y (λ q. inner (rw q h)) ∙ h, a))
  halve_chain (suc zero) y r (h, c) = elim (ℕ_discrete x y) [
    | yes q ↦ (
      1,
      omega arith,
      subst (λ z. Reaches halved 1 z r) q
          (chain_to_root r (subst (λ z. Reaches p 0 (parent_of p z) r) (sym q) c)),
    )
    | no q ↦
        let (e, le, c') = halve_chain zero (parent_of p y) r c in
        (
          suc e,
          omega arith,
          (
            λ w. h (sym (elsewhere y q) ∙ w),
            subst (λ z. Reaches halved e z r) (sym (elsewhere y q)) c',
          ),
        )
  ]
  halve_chain (suc (suc d)) y r (h, c) = elim (ℕ_discrete x y) [
    | yes q ↦
        let c1 = subst (λ z. Reaches p (suc d) (parent_of p z) r) (sym q) c in
        let (e, le, c') = halve_chain d (parent_of p (parent_of p x)) r c1.1 in
        (suc e, omega arith, subst (λ z. Reaches halved (suc e) z r) q (chain_to_grand d e r c1 c'))
    | no q ↦
        let (e, le, c') = halve_chain (suc d) (parent_of p y) r c in
        (
          suc e,
          omega arith,
          (
            λ w. h (sym (elsewhere y q) ∙ w),
            subst (λ z. Reaches halved e z r) (sym (elsewhere y q)) c',
          ),
        )
  ]

  -- Path halving keeps every root and lengthens no chain.
  pub Keeps-halved : Keeps p halved
  Keeps-halved = record {
    chain = halve_chain;
    size = length-set p x _;
    inside = λ h y lt. elim (ℕ_discrete x y) [
      | yes q ↦
          let inside_x = h (parent_of p x) (h x (in_range p x inner)) in
          omega (
            arith,
            inside_x,
            length-set p x (parent_of p (parent_of p x)),
            subst (λ z. parent_of halved z ≡ parent_of p (parent_of p x)) q at_x,
          )
      | no q ↦ omega (
        arith,
        elsewhere y q,
        length-set p x (parent_of p (parent_of p x)),
        h y (omega (arith, length-set p x (parent_of p (parent_of p x)))),
      )
    ];
  }

module _ (p : List ℕ) (a b : ℕ) (root_a : parent_of p a ≡ a) (root_b : parent_of p b ≡ b)
    (apart : a ≢ b) (inside : a < length p) where
  abbrev hung : List ℕ
  hung = set p a b

  hung_at : parent_of hung a ≡ b
  hung_at = get_or-set_self p a b a inside

  hung_elsewhere : (y : ℕ) → a ≢ y → parent_of hung y ≡ parent_of p y
  hung_elsewhere y h = get_or-set_ne p a y b y h

  -- The nodes under `a` come under `b`, one step deeper.
  pub hung_under : (d y : ℕ) → Reaches p d y a → Reaches hung (suc d) y b
  hung_under zero y (h, e) =
      let at_y : parent_of hung y ≡ b = subst (λ z. parent_of hung z ≡ b) (sym e) hung_at in
      (λ q. apart (sym e ∙ (sym q ∙ at_y)), (rw at_y (hung_elsewhere b apart ∙ root_b), at_y))
  hung_under (suc d) y (h, c) =
      let same = hung_elsewhere y (λ q. h (subst (λ z. parent_of p z ≡ z) q root_a)) in
      (
        λ w. h (sym same ∙ w),
        subst (λ z. Reaches hung (suc d) z b) (sym same) (hung_under d (parent_of p y) c),
      )

  -- The other nodes keep their roots.
  pub hung_apart : (d y r : ℕ) → r ≢ a → Reaches p d y r → Reaches hung d y r
  hung_apart zero y r ne (h, e) = (hung_elsewhere y (λ q. ne (sym e ∙ sym q)) ∙ h, e)
  hung_apart (suc d) y r ne (h, c) =
      let same = hung_elsewhere y (λ q. h (subst (λ z. parent_of p z ≡ z) q root_a)) in
      (
        λ w. h (sym same ∙ w),
        subst (λ z. Reaches hung d z r) (sym same) (hung_apart d (parent_of p y) r ne c),
      )
