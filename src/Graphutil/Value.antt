-- ===== src/Graphutil/Value.antt =====
-- The values of `map[string]any`: what encoding/json gives after cypher.ConvertNumbers, and Go maps
-- as association lists with the newest key at the end.
use neo4j_mcp_canary.Prelude.{ℕ, Bool, List, [], ◌∷◌, Option, none, some, if◌then◌else◌, ℤ}
use neo4j_mcp_canary.Text.{Str, ◌==s◌}

-- A float64 is carried as its bit pattern: the code never computes with one.
mutual
  pub data Value : Type 0 where
    null : Value
    bool : Bool → Value
    int : ℤ → Value
    float : ℕ → Value
    str : Str → Value
    arr : Items → Value
    obj : Fields → Value

  pub data Items : Type 0 where
    nil : Items
    cons : Value → Items → Items

  pub data Fields : Type 0 where
    end : Fields
    field : Str → Value → Fields → Fields

-- A Go map with string keys.
abbrev pub Params : Type 0
Params = List (Str × Value)

-- `m[k] = v`
unfoldable pub assign : Str → Value → Params → Params
assign k v [] = (k, v) ∷ []
assign k v ((j, w) ∷ m) = if k ==s j then (k, v) ∷ m else (j, w) ∷ assign k v m

-- `v, ok := m[k]`
unfoldable pub lookup : Str → Params → Option Value
lookup k [] = none
lookup k ((j, w) ∷ m) = if k ==s j then some w else lookup k m

-- The keys, in the order of insertion.
abbrev pub keys : Params → List Str
keys [] = []
keys ((k, v) ∷ m) = k ∷ keys m

-- The values, in the order of insertion.
abbrev pub values : Params → List Value
values [] = []
values ((k, v) ∷ m) = v ∷ values m
