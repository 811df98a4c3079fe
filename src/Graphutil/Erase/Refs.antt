-- ===== src/Graphutil/Erase/Refs.antt =====
-- Filters, matches and node references write the same text for erased values.
use neo4j_mcp_canary.Prelude.{ℕ, suc, List, [], ◌∷◌, ◌≡◌, refl, ap, Bool-cases, inl, inr}
use neo4j_mcp_canary.Text.{Str, ◌==s◌}
use neo4j_mcp_canary.Graphutil.Value.{Value, null, arr, Params, lookup, keys}
use neo4j_mcp_canary.Graphutil.Filters.{
  Filter, is_null, is_list, operator_of, operator_condition, filter_condition,
  filter_conditions_from, match_condition, match_conditions_of, match_conditions, value_at,
}
use neo4j_mcp_canary.Graphutil.NodeRef.{
  NodeRef, is_empty, has_predicate, id_conditions, conditions, pattern_of, inline_ref,
}
use neo4j_mcp_canary.Graphutil.Erase.{erase, erase_params, erase_filter, erase_filters, erase_ref}
use neo4j_mcp_canary.Graphutil.Erase.Sim.{Sim, Sim-if, Sim-bind, Sim-param, sim_rules}

pub is_null-erase : (v : Value) → is_null (erase v) ≡ is_null v
is_null-erase null = refl
is_null-erase (arr xs) = refl
is_null-erase _ = refl

is_list-erase : (v : Value) → is_list (erase v) ≡ is_list v
is_list-erase null = refl
is_list-erase (arr xs) = refl
is_list-erase _ = refl

pub Sim-filter_condition :
    (var_expr : Str) (i : ℕ) (f : Filter)
    → Sim (filter_condition var_expr i (erase_filter f)) (filter_condition var_expr i f)
unfolding filter_condition operator_condition operator_of
Sim-filter_condition var_expr i f =
    rw (is_null-erase f.value, is_list-erase f.value) (search sim_rules depth 9)

pub Sim-filter_conditions :
    (var_expr : Str) (i : ℕ) (fs : List Filter)
    → Sim
        (filter_conditions_from var_expr i (erase_filters fs))
        (filter_conditions_from var_expr i fs)
unfolding filter_conditions_from
Sim-filter_conditions var_expr i [] = search sim_rules
Sim-filter_conditions var_expr i (f ∷ fs) =
    search (sim_rules, Sim-filter_condition var_expr i f, Sim-filter_conditions var_expr (suc i) fs)

keys-erase : (m : Params) → keys (erase_params m) ≡ keys m
keys-erase [] = refl
keys-erase ((k, v) ∷ m) = ap (λ l. k ∷ l) (keys-erase m)

pub lookup-erase :
    (k : Str) (m : Params) → value_at (lookup k (erase_params m)) ≡ erase (value_at (lookup k m))
unfolding lookup
lookup-erase k [] = refl
lookup-erase k ((j, v) ∷ m) = elim (Bool-cases (k ==s j)) [
  | inl e ↦ rw e
  | inr e ↦ rw e (lookup-erase k m)
]

Sim-match_condition :
    (var_expr : Str) (m : Params) (k : Str)
    → Sim (match_condition var_expr (erase_params m) k) (match_condition var_expr m k)
unfolding match_condition
Sim-match_condition var_expr m k =
    rw (lookup-erase k m, is_null-erase (value_at (lookup k m))) (search sim_rules)

Sim-match_conditions_of :
    (var_expr : Str) (m : Params) (ks : List Str)
    → Sim (match_conditions_of var_expr (erase_params m) ks) (match_conditions_of var_expr m ks)
unfolding match_conditions_of
Sim-match_conditions_of var_expr m [] = search sim_rules
Sim-match_conditions_of var_expr m (k ∷ ks) =
    search (sim_rules, Sim-match_condition var_expr m k, Sim-match_conditions_of var_expr m ks)

pub Sim-match_conditions :
    (var_expr : Str) (m : Params)
    → Sim (match_conditions var_expr (erase_params m)) (match_conditions var_expr m)
unfolding match_conditions
Sim-match_conditions var_expr m = rw (keys-erase m) (Sim-match_conditions_of var_expr m _)

pub Sim-id_conditions :
    (var_expr id : Str) → Sim (id_conditions var_expr id) (id_conditions var_expr id)
unfolding id_conditions
Sim-id_conditions var_expr id = search sim_rules

pub Sim-conditions :
    (r : NodeRef) (var_expr : Str) → Sim (conditions (erase_ref r) var_expr) (conditions r var_expr)
unfolding conditions
Sim-conditions r var_expr =
    search (sim_rules, Sim-id_conditions, Sim-match_conditions, Sim-filter_conditions)

pub Sim-pattern_of : (r : NodeRef) (v : Str) → Sim (pattern_of (erase_ref r) v) (pattern_of r v)
unfolding pattern_of
Sim-pattern_of r v = search (sim_rules, Sim-conditions)

pub Sim-inline_ref : (r : NodeRef) (v : Str) → Sim (inline_ref (erase_ref r) v) (inline_ref r v)
unfolding inline_ref
Sim-inline_ref r v = search (sim_rules, Sim-conditions)

pub is_empty-erase_params : (m : Params) → is_empty (erase_params m) ≡ is_empty m
is_empty-erase_params [] = refl
is_empty-erase_params (x ∷ m) = refl

pub is_empty-erase_filters : (fs : List Filter) → is_empty (erase_filters fs) ≡ is_empty fs
is_empty-erase_filters [] = refl
is_empty-erase_filters (f ∷ fs) = refl

pub has_predicate-erase : (r : NodeRef) → has_predicate (erase_ref r) ≡ has_predicate r
unfolding has_predicate
has_predicate-erase r = rw (is_empty-erase_params r.match, is_empty-erase_filters r.filters)

pub ruleset ref_rules = (
  sim_rules, Sim-filter_conditions, Sim-match_conditions, Sim-conditions, Sim-pattern_of,
  Sim-inline_ref,
)
