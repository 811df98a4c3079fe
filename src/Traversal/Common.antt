-- ===== src/Traversal/Common.antt =====
-- traversal/common.go: directions, depths, and the node that a traversal starts from.
use neo4j_mcp_canary.Prelude.{◌||◌, [], ◌≡◌, refl, ap, inl, inr, arith, if◌then◌else◌, ℤ, pos, ◌≤ℤ◌}
use neo4j_mcp_canary.Text.{Str, codes, ◌==s◌}
use neo4j_mcp_canary.Graphutil.Error.{
  Result, ok, err, ◌>>=r◌, wrap, require, bad_direction, depth_context, must_select, Result-cases,
  ok_inj,
}
use neo4j_mcp_canary.Graphutil.NodeRef.{NodeRef, has_predicate}
use neo4j_mcp_canary.Graphutil.Limits.{int_in_range, int_in_range_bounds, outgoing, incoming, both}

-- resolveDirection
unfoldable pub resolve_direction : Str → Str → Result Str
resolve_direction direction def =
    if direction ==s []
    then ok def
    else if direction ==s outgoing || direction ==s incoming || direction ==s both
    then ok direction
    else err (bad_direction direction)

-- The second half of `resolveDepths`, at the depth that the first half accepted.
unfoldable pub resolve_min_depth : ℤ → ℤ → Result (ℤ × ℤ)
resolve_min_depth min_depth max_d =
    wrap (λ e. depth_context e max_d)
      (int_in_range (codes "minDepth") min_depth (pos 1) (pos 1) max_d)
    >>=r λ min_d. ok (min_d, max_d)

-- resolveDepths
unfoldable pub resolve_depths : ℤ → ℤ → ℤ → ℤ → Result (ℤ × ℤ)
unfolding resolve_min_depth
resolve_depths min_depth max_depth def_max cap_max =
    int_in_range (codes "maxDepth") max_depth def_max (pos 1) cap_max
    >>=r resolve_min_depth min_depth

-- requireNode
unfoldable pub require_node : Str → NodeRef → Result (Unit {0})
require_node field ref = require (has_predicate ref) (must_select field)

min_depth_bounds :
    (min_depth m min_d max_d : ℤ)
    → pos 1 ≤ℤ m
    → resolve_min_depth min_depth m ≡ ok (min_d, max_d)
    → (pos 1 ≤ℤ min_d) × (min_d ≤ℤ max_d) × (max_d ≡ m)
unfolding resolve_min_depth
min_depth_bounds min_depth m min_d max_d h e =
    elim (Result-cases (int_in_range (codes "minDepth") min_depth (pos 1) (pos 1) m)) [
      | inl (d, q) ↦
          let (lo, hi) =
            int_in_range_bounds (codes "minDepth") min_depth (pos 1) (pos 1) m d (omega arith) h
              q in
          let same = ok_inj (rw q at e) in
          let first = ap (λ (p : ℤ × ℤ). p.0) same in
          let second = ap (λ (p : ℤ × ℤ). p.1) same in rw (← first, ← second) (lo, hi, refl)
      | inr (x, q) ↦ absurd (cc (rw q at e))
    ]

-- The depths that are accepted: 1 ≤ minDepth ≤ maxDepth ≤ cap, for every pair that a caller sends,
-- if the default lies between 1 and the cap.
pub resolve_depths_bounds :
    (min_depth max_depth def_max cap_max min_d max_d : ℤ)
    → pos 1 ≤ℤ def_max
    → def_max ≤ℤ cap_max
    → resolve_depths min_depth max_depth def_max cap_max ≡ ok (min_d, max_d)
    → (pos 1 ≤ℤ min_d) × (min_d ≤ℤ max_d) × (max_d ≤ℤ cap_max)
unfolding resolve_depths
resolve_depths_bounds min_depth max_depth def_max cap_max min_d max_d h k e =
    elim (Result-cases (int_in_range (codes "maxDepth") max_depth def_max (pos 1) cap_max)) [
      | inl (m, q) ↦
          let (lo, hi) =
            int_in_range_bounds (codes "maxDepth") max_depth def_max (pos 1) cap_max m h k q in
          let (one, two, same) = min_depth_bounds min_depth m min_d max_d lo (rw q at e) in
          (one, two, rw same hi)
      | inr (x, q) ↦ absurd (cc (rw q at e))
    ]
