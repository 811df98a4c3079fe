-- ===== src/Patterns/Connected.antt =====
-- patterns/match_pattern.go: `checkConnected`, a union-find over the nodes of a pattern.
pub mod Forest
pub mod Find
pub mod Invariant
pub mod Hang
pub mod Correct
use neo4j_mcp_canary.Prelude.{
  ℕ, zero, suc, Bool, true, false, List, [], ◌∷◌, Option, none, some, length, get_or, set, ◌==◌,
  if◌then◌else◌,
}
use neo4j_mcp_canary.Text.{Str, ◌==s◌}
use neo4j_mcp_canary.Graphutil.Error.{Error, Result, ok, err, alias_undefined, not_connected}

-- `parent[x]`; every index that the code uses is in range.
abbrev pub parent_of : List ℕ → ℕ → ℕ
parent_of parent x = get_or parent x x

-- `parent[i] = i`, for `n` entries from `i` on
unfoldable pub identity_from : ℕ → ℕ → List ℕ
identity_from i zero = []
identity_from i (suc n) = i ∷ identity_from (suc i) n

-- `find`, with path halving. Every round but the last moves `x` towards the root, and the depth of
-- the forest is at most the number of unions made: fuel above that number is never used up.
unfoldable pub find : ℕ → List ℕ → ℕ → ℕ × List ℕ
find zero parent x = (x, parent)
find (suc fuel) parent x =
    let grand = parent_of parent (parent_of parent x) in
    let rest = find fuel (set parent x grand) grand in
    if parent_of parent x == x then (x, parent) else rest

-- `aliases[a]`
unfoldable pub index_of : Str → List (Str × ℕ) → Option ℕ
index_of a [] = none
index_of a ((b, i) ∷ m) = if a ==s b then some i else index_of a m

-- `parent[find(from)] = find(to)`
unfoldable pub unite : ℕ → List ℕ → ℕ → ℕ → List ℕ
unfolding find
unite fuel parent from to =
    let (root_from, parent1) = find fuel parent from in
    let (root_to, parent2) = find fuel parent1 to in set parent2 root_from root_to

-- The ends of a relationship, by alias.
pub record Ends : Type 0 where
  pub from : Str
  pub to : Str

-- What the loop does with a relationship whose ends were looked up.
abbrev pub unite_ends :
    ℕ → List ℕ → ℕ → Ends → Option ℕ → Option ℕ → (List ℕ → Result (List ℕ)) → Result (List ℕ)
unite_ends fuel parent i r none to next = err (alias_undefined i r.from)
unite_ends fuel parent i r (some from) none next = err (alias_undefined i r.to)
unite_ends fuel parent i r (some from) (some to) next = next (unite fuel parent from to)

-- The loop over the relationships, at index `i`.
unfoldable pub unite_all : ℕ → List (Str × ℕ) → ℕ → List Ends → List ℕ → Result (List ℕ)
unfolding index_of
unite_all fuel aliases i [] parent = ok parent
unite_all fuel aliases i (r ∷ rs) parent =
    unite_ends fuel parent i r (index_of r.from aliases) (index_of r.to aliases)
      (unite_all fuel aliases (suc i) rs)

-- The loop over the nodes: each must have the root of node 0.
unfoldable pub check_roots : ℕ → ℕ → ℕ → List Str → List ℕ → Result (Unit {0})
unfolding find
check_roots fuel root i [] parent = ok tt
check_roots fuel root i (a ∷ names) parent =
    let (r, parent') = find fuel parent i in
    let rest = check_roots fuel root (suc i) names parent' in
    if r == root then rest else err (not_connected a)

-- What follows the loop over the relationships.
unfoldable pub check_root : ℕ → List Str → List ℕ → Result (Unit {0})
check_root fuel names parent =
    let (root, parent') = find fuel parent 0 in check_roots fuel root 0 names parent'

abbrev pub then_check : ℕ → List Str → Result (List ℕ) → Result (Unit {0})
then_check fuel names (ok parent) = check_root fuel names parent
then_check fuel names (err e) = err e

-- checkConnected, over the aliases of the nodes in order, and the ends of the relationships.
unfoldable pub check_connected : List Str → List Ends → List (Str × ℕ) → Result (Unit {0})
check_connected names rels aliases =
    let fuel = suc (suc (length rels)) in
    then_check fuel names (unite_all fuel aliases 0 rels (identity_from 0 (length names)))
