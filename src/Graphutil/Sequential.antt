-- ===== src/Graphutil/Sequential.antt =====
-- Build steps and the sequence of parameter names.
use neo4j_mcp_canary.Prelude.{ℕ, suc, Bool, true, false, List, [], ◌∷◌, if◌then◌else◌}
use neo4j_mcp_canary.Text.{Str}
use neo4j_mcp_canary.Graphutil.Value.{Value, Params}
use neo4j_mcp_canary.Graphutil.Error.{Error, Result, ok, err, wrap}
use neo4j_mcp_canary.Graphutil.Builder.{
  Builder, Build, continue, ◌>>=◌, pure, lift, param, wrapping,
}
use neo4j_mcp_canary.Graphutil.Builder.Fresh.{IsSequential, add_param-IsSequential}
use neo4j_mcp_canary.Graphutil.Filters.{
  Filter, filter_condition, operator_condition, operator_of, filter_conditions_from,
  match_condition, match_conditions_of, match_conditions,
}
use neo4j_mcp_canary.Graphutil.NodeRef.{NodeRef, id_conditions, conditions, pattern_of}

abbrev pub SeqResult : {A : Type 0} → Result (A × Builder) → Type 0
SeqResult (ok (a, b)) = IsSequential b
SeqResult (err e) = Unit

pub record Sequential {A : Type 0} (m : Build A) : Type 0 where
  pub at : (b : Builder) → IsSequential b → SeqResult (m b)

SeqResult-wrap :
    {A : Type 0} (f : Error → Error) (r : Result (A × Builder)) → SeqResult r → SeqResult (wrap f r)
SeqResult-wrap f (ok (a, b)) h = h
SeqResult-wrap f (err e) h = tt

module _ {A : Type 0} where
  pub Sequential-pure : (a : A) → Sequential (pure a)
  unfolding pure
  Sequential-pure a = record { at = λ b h. h }

  pub Sequential-lift : (r : Result A) → Sequential (lift r)
  unfolding lift
  Sequential-lift (ok a) = record { at = λ b h. h }
  Sequential-lift (err e) = record { at = λ b h. tt }

  pub Sequential-if :
      (t : Bool) (m n : Build A) → Sequential m → Sequential n → Sequential (if t then m else n)
  Sequential-if true m n h k = h
  Sequential-if false m n h k = k

  pub Sequential-wrapping :
      (f : Error → Error) (m : Build A) → Sequential m → Sequential (wrapping f m)
  unfolding wrapping
  Sequential-wrapping f m h = record { at = λ b k. SeqResult-wrap f (m b) (h.at b k) }

pub Sequential-param : (v : Value) → Sequential (param v)
unfolding param
Sequential-param v = record { at = λ b h. add_param-IsSequential v b h }

module _ {A B : Type 0} where
  SeqResult-continue :
      (r : Result (A × Builder)) (f : A → Build B)
      → SeqResult r
      → ((a : A) → Sequential (f a))
      → SeqResult (continue r f)
  SeqResult-continue (ok (a, b)) f h k = (k a).at b h
  SeqResult-continue (err e) f h k = tt

  pub Sequential-bind :
      (m : Build A) (f : A → Build B)
      → Sequential m
      → ((a : A) → Sequential (f a))
      → Sequential (m >>= f)
  unfolding ◌>>=◌
  Sequential-bind m f h k = record { at = λ b e. SeqResult-continue (m b) f (h.at b e) k }

pub ruleset step_rules = (
  Sequential-pure, Sequential-lift, Sequential-if, Sequential-wrapping, Sequential-param,
  Sequential-bind,
)

Sequential-filter_condition : (v : Str) (i : ℕ) (f : Filter) → Sequential (filter_condition v i f)
unfolding filter_condition operator_condition operator_of
Sequential-filter_condition v i f = search step_rules depth 9

pub Sequential-filter_conditions :
    (v : Str) (i : ℕ) (fs : List Filter) → Sequential (filter_conditions_from v i fs)
unfolding filter_conditions_from
Sequential-filter_conditions v i [] = search step_rules
Sequential-filter_conditions v i (f ∷ fs) =
    search
      (step_rules, Sequential-filter_condition v i f, Sequential-filter_conditions v (suc i) fs)

Sequential-match_condition : (v : Str) (m : Params) (k : Str) → Sequential (match_condition v m k)
unfolding match_condition
Sequential-match_condition v m k = search step_rules

Sequential-match_conditions_of :
    (v : Str) (m : Params) (ks : List Str) → Sequential (match_conditions_of v m ks)
unfolding match_conditions_of
Sequential-match_conditions_of v m [] = search step_rules
Sequential-match_conditions_of v m (k ∷ ks) =
    search (step_rules, Sequential-match_condition v m k, Sequential-match_conditions_of v m ks)

pub Sequential-match_conditions : (v : Str) (m : Params) → Sequential (match_conditions v m)
unfolding match_conditions
Sequential-match_conditions v m = Sequential-match_conditions_of v m _

pub Sequential-id_conditions : (v id : Str) → Sequential (id_conditions v id)
unfolding id_conditions
Sequential-id_conditions v id = search step_rules

pub Sequential-conditions : (r : NodeRef) (v : Str) → Sequential (conditions r v)
unfolding conditions
Sequential-conditions r v = search (
  step_rules, Sequential-id_conditions, Sequential-match_conditions, Sequential-filter_conditions,
)

pub Sequential-pattern_of : (r : NodeRef) (v : Str) → Sequential (pattern_of r v)
unfolding pattern_of
Sequential-pattern_of r v = search (step_rules, Sequential-conditions)

pub ruleset sequential_rules = (
  step_rules, Sequential-filter_conditions, Sequential-match_conditions, Sequential-id_conditions,
  Sequential-conditions, Sequential-pattern_of,
)
