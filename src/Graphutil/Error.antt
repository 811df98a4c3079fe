-- ===== src/Graphutil/Error.antt =====
-- The errors of the graph tools' build functions, one constructor for each message, and the state
-- and error monad of a function that takes a `*Builder` and returns an error.
use neo4j_mcp_canary.Prelude.{ℕ, ℤ, Bool, true, false, ◌≡◌, refl, ap, ◌⊎◌, inl, inr}
use neo4j_mcp_canary.Text.{Str}

pub data Error : Type 0 where
  -- fmt.Errorf("<what>: %w", err)
  context : Str → Error → Error
  -- fmt.Errorf("<what>[%d]<rest>: %w", i, err)
  context_at : Str → ℕ → Error → Error
  -- graphutil/builder.go
  blank_name : Str → Error
  -- graphutil/filters.go: the index in `filters`
  filter_property_empty : ℕ → Error
  filter_operator_unsupported : ℕ → Str → Error
  filter_value_required : ℕ → Str → Error
  filter_value_not_list : ℕ → Error
  match_key_empty : Error
  match_value_null : Str → Error
  -- graphutil/limits.go: name, lo, hi, given, default
  out_of_range : Str → ℤ → ℤ → ℤ → ℤ → Error
  bad_direction : Str → Error
  -- "%w (minDepth cannot exceed maxDepth, which is %d)"
  depth_context : Error → ℤ → Error
  -- the tools
  must_select : Str → Error
  bad_step_count : ℕ → Error
  bad_node_count : ℕ → Error
  nodes_required : Error
  pattern_too_large : ℕ → ℕ → Error
  alias_required : ℕ → Error
  alias_duplicate : Str → Error
  alias_undefined : ℕ → Str → Error
  not_connected : Str → Error
  bad_mode : Str → Error
  bad_motif : Str → Error
  bad_order : Str → Error
  bad_skip : ℤ → Error
  type_required : Error
  property_key_empty : Str → Error
  labels_required : Error
  merge_key_missing : Str → Error
  nothing_to_update : Error
  removed_name_empty : Error

pub data Result {ℓ} (A : Type ℓ) : Type ℓ where
  ok : A → Result A
  err : Error → Result A

infixl 5 ◌>>=r◌
abbrev pub ◌>>=r◌ {ℓ κ} : {A : Type ℓ} {B : Type κ} → Result A → (A → Result B) → Result B
ok a >>=r f = f a
err e >>=r f = err e

-- `if err != nil { return ..., wrap(err) }`
abbrev pub wrap {ℓ} : {A : Type ℓ} → (Error → Error) → Result A → Result A
wrap f (ok a) = ok a
wrap f (err e) = err (f e)

-- `if !test { return err }`
abbrev pub require : Bool → Error → Result (Unit {0})
require true e = ok tt
require false e = err e

-- The value of a successful result.
abbrev value_or {ℓ} : {A : Type ℓ} → A → Result A → A
value_or d (ok a) = a
value_or d (err e) = d

pub ok_inj {ℓ} : {A : Type ℓ} {a b : A} → ok a ≡ ok b → a ≡ b
ok_inj {a = a} e = ap (value_or a) e

pub Result-cases {ℓ} :
    {A : Type ℓ} (r : Result A) → ((a : A) × (r ≡ ok a)) ⊎ ((e : Error) × (r ≡ err e))
Result-cases (ok a) = inl (a, refl)
Result-cases (err e) = inr (e, refl)
