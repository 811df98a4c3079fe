-- ===== src/Graphutil/Builder/Fresh.antt =====
-- The names of parameters, which are allocated in sequence.
use neo4j_mcp_canary.Prelude.{
  ℕ, suc, ◌+◌, ◌≤◌, [], ◌∷◌, ◌++◌, ◌≡◌, ◌≢◌, refl, ap, arith, length, some, false, Bool-cases, inl,
  inr,
}
use neo4j_mcp_canary.Text.{Str, ◌==s◌}
use neo4j_mcp_canary.Text.Laws.{==s_iff, ==s_refl}
use neo4j_mcp_canary.Text.Decimal.{itoa_injective}
use neo4j_mcp_canary.Graphutil.Value.{Value, Params, assign, lookup}
use neo4j_mcp_canary.Graphutil.Builder.{Builder, param_name, add_param}

-- The entries from number `n` on are named p<n>, p<n+1>, ...
abbrev pub NamedFrom : ℕ → Params → Type 0
NamedFrom n [] = Unit
NamedFrom n ((k, v) ∷ m) = (k ≡ param_name n) × NamedFrom (suc n) m

abbrev pub IsSequential : Builder → Type 0
IsSequential b = NamedFrom 0 b.params

param_name_injective : (m n : ℕ) → param_name m ≡ param_name n → m ≡ n
param_name_injective m n e = itoa_injective m n (cc)

param_name_ne : (m n : ℕ) → m ≢ n → (param_name m ==s param_name n) ≡ false
param_name_ne m n h = elim (Bool-cases (param_name m ==s param_name n)) [
  | inl e ↦ absurd (h (param_name_injective m n ((==s_iff _ _).0 e)))
  | inr e ↦ e
]

-- A name with a later number is not among the entries, so writing it appends.
pub assign_fresh :
    (n k : ℕ) (v : Value) (m : Params)
    → NamedFrom n m
    → n + length m ≤ k
    → assign (param_name k) v m ≡ m ++ (param_name k, v) ∷ []
unfolding assign
assign_fresh n k v [] h le = refl
assign_fresh n k v ((j, w) ∷ m) (e, h) le =
    rw (e, param_name_ne k n (λ q. absurd (omega (arith, q))))
      (ap (λ l. (param_name n, w) ∷ l) (assign_fresh (suc n) k v m h (omega arith)))

NamedFrom-append :
    (n k : ℕ) (v : Value) (m : Params)
    → NamedFrom n m
    → n + length m ≡ k
    → NamedFrom n (m ++ (param_name k, v) ∷ [])
NamedFrom-append n k v [] h e = (ap param_name (omega arith), tt)
NamedFrom-append n k v ((j, w) ∷ m) (q, h) e = (q, NamedFrom-append (suc n) k v m h (omega arith))

pub add_param-append :
    (v : Value) (b : Builder)
    → IsSequential b
    → (add_param v b).1.params ≡ b.params ++ (param_name (length b.params), v) ∷ []
unfolding add_param
add_param-append v b h = assign_fresh 0 (length b.params) v b.params h (omega arith)

pub add_param-IsSequential :
    (v : Value) (b : Builder) → IsSequential b → IsSequential (add_param v b).1
add_param-IsSequential v b h =
    rw (add_param-append v b h) (NamedFrom-append 0 _ v b.params h (omega arith))

lookup_at_end :
    (n k : ℕ) (v : Value) (m : Params)
    → NamedFrom n m
    → n + length m ≤ k
    → lookup (param_name k) (m ++ (param_name k, v) ∷ []) ≡ some v
unfolding lookup
lookup_at_end n k v [] h le = rw (==s_refl (param_name k))
lookup_at_end n k v ((j, w) ∷ m) (e, h) le =
    rw (e, param_name_ne k n (λ q. absurd (omega (arith, q))))
      (lookup_at_end (suc n) k v m h (omega arith))

lookup_in_front :
    (k : Str) (v w : Value) (m r : Params) → lookup k m ≡ some w → lookup k (m ++ r) ≡ some w
unfolding lookup
lookup_in_front k v w [] r h = cc
lookup_in_front k v w ((j, x) ∷ m) r h = ground (arith, lookup_in_front k v w m r)

-- In a builder whose names are in sequence, `Param` binds its value under the placeholder that it
-- returns, keeps the value of every placeholder given before, and leaves the names in sequence.
pub add_param_fresh :
    (v : Value) (b : Builder)
    → IsSequential b
    → ((add_param v b).0 ≡ b'$' ∷ param_name (length b.params))
      × (lookup (param_name (length b.params)) (add_param v b).1.params ≡ some v)
      × ((k : Str) (w : Value)
          → lookup k b.params ≡ some w
          → lookup k (add_param v b).1.params ≡ some w)
      × IsSequential (add_param v b).1
add_param_fresh v b h = (
  unfold add_param in refl,
  rw (add_param-append v b h) (lookup_at_end 0 (length b.params) v b.params h (omega arith)),
  λ k w e. rw (add_param-append v b h) (lookup_in_front k v w b.params _ e),
  add_param-IsSequential v b h,
)
