-- ===== src/Graphutil/Builder.antt =====
-- graphutil/builder.go: `Builder`, the allocator of query parameters, and functions that use one.
pub mod Fresh
use neo4j_mcp_canary.Prelude.{ℕ, ◌∷◌, [], length}
use neo4j_mcp_canary.Text.{Str, itoa}
use neo4j_mcp_canary.Graphutil.Value.{Value, Params, assign}
use neo4j_mcp_canary.Graphutil.Error.{Error, Result, ok, err, wrap}

pub record Builder : Type 0 where
  pub params : Params

-- NewBuilder
abbrev pub new_builder : Builder
new_builder = record { params = [] }

-- fmt.Sprintf("p%d", n)
abbrev pub param_name : ℕ → Str
param_name n = b'p' ∷ itoa n

-- Builder.Param: registers `v` and returns its "$pN" placeholder.
unfoldable pub add_param : Value → Builder → Str × Builder
add_param v b =
    let name = param_name (length b.params) in
    (b'$' ∷ name, record b { params = assign name v b.params })

-- A function of a `*Builder` that may fail. On an error every caller drops the builder.
abbrev pub Build {ℓ} : Type ℓ → Type ℓ
Build A = Builder → Result (A × Builder)

-- What is left to do after a step, if the step did not fail.
abbrev pub continue {ℓ κ} :
    {A : Type ℓ} {B : Type κ} → Result (A × Builder) → (A → Build B) → Result (B × Builder)
continue (ok (a, b)) f = f a b
continue (err e) f = err e

infixl 5 ◌>>=◌ ◌>>◌
unfoldable pub ◌>>=◌ {ℓ κ} : {A : Type ℓ} {B : Type κ} → Build A → (A → Build B) → Build B
◌>>=◌ m f b = continue (m b) f

abbrev pub ◌>>◌ {ℓ κ} : {A : Type ℓ} {B : Type κ} → Build A → Build B → Build B
m >> k = m >>= λ _. k

unfoldable pub pure {ℓ} : {A : Type ℓ} → A → Build A
pure a b = ok (a, b)

-- A result that touches no builder.
unfoldable pub lift {ℓ} : {A : Type ℓ} → Result A → Build A
lift (ok a) b = ok (a, b)
lift (err e) b = err e

-- `b.Param(v)` as an expression
unfoldable pub param : Value → Build Str
unfolding add_param
param v b = ok (add_param v b)

-- An error of `m` is returned under the context that `f` adds.
unfoldable pub wrapping {ℓ} : {A : Type ℓ} → (Error → Error) → Build A → Build A
wrapping f m b = wrap f (m b)
