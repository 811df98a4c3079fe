-- ===== src/Graph/Guards.antt =====
-- The guard round every mutation.
pub mod Nodes
pub mod Relationships
use neo4j_mcp_canary.Prelude.{
  Bool, true, false, not, [], ◌∷◌, ◌≡◌, ◌⊎◌, inl, inr, refl, sym, ap, ◌∙◌, some, Bool-cases, ℤ, pos,
  ◌≤ℤ◌, if◌then◌else◌, arith, length, List, ◌||◌, ◌++◌, ◌≢◌, Option, none, or_cases,
}
use neo4j_mcp_canary.Text.Laws.{==s_refl}
use neo4j_mcp_canary.Text.{Str, codes, ◌==s◌, concat}
use neo4j_mcp_canary.Graphutil.Value.{Params, lookup, int, str}
use neo4j_mcp_canary.Graphutil.Error.{Result, ok, ok_inj}
use neo4j_mcp_canary.Graphutil.Builder.{
  Builder, new_builder, param_name, add_param, Build, ◌>>=◌, pure, param,
}
use neo4j_mcp_canary.Graphutil.Builder.Fresh.{IsSequential, add_param_fresh}
use neo4j_mcp_canary.Graphutil.NodeRef.{NodeRef, has_predicate, is_empty}
use neo4j_mcp_canary.Graphutil.Limits.{int_in_range, int_in_range_bounds}
use neo4j_mcp_canary.Graphutil.Query.{Query, Draft, read_draft, write_draft, with_params}
use neo4j_mcp_canary.Graphutil.Sequential.{Sequential, SeqResult, sequential_rules}
use neo4j_mcp_canary.Graphutil.Success.{>>=_ok, lift-bind_ok, pure_ok, require_ok, run_build_ok}
use neo4j_mcp_canary.Graph.Common.{
  node_match, resolve_max_affected, guarded_mutation, guarded_text, refusal_message,
  no_match_message, dry_run_query, unless_dry_run,
}
use neo4j_mcp_canary.Graph.RelRef.{RelRef, rel_match, rel_has_predicate, optional_has_predicate}
use neo4j_mcp_canary.Graph.Nodes.{set_step}
use neo4j_mcp_canary.Graph.Wording.{
  Wording, node_wording, relationship_wording, PreviewsOnly, guard_words, MutatesGuarded, Previews,
  Words,
}

pub Sequential-node_match : (r : NodeRef) (v : Str) → Sequential (node_match r v)
unfolding node_match
Sequential-node_match r v = search sequential_rules

pub Sequential-rel_match : (r : RelRef) → Sequential (rel_match r)
unfolding rel_match
Sequential-rel_match r = search sequential_rules depth 12

pub Sequential-set_step : (v : Str) (m : Params) → Sequential (set_step v m)
unfolding set_step
Sequential-set_step v [] = search sequential_rules
Sequential-set_step v (x ∷ m) = search sequential_rules

-- A sequential step that succeeds leaves the names in sequence.
pub Sequential-after :
    {A : Type 0} {m : Build A} (s : Sequential m) (b : Builder) (a : A) (c : Builder)
    → IsSequential b
    → m b ≡ ok (a, c)
    → IsSequential c
Sequential-after s b a c h e = rw e at (s.at b h)

max_affected_bounds : (n m : ℤ) → resolve_max_affected n ≡ ok m → (pos 1 ≤ℤ m) × (m ≤ℤ pos 1000)
unfolding resolve_max_affected
max_affected_bounds n m e =
    int_in_range_bounds (codes "maxAffected") n (pos 1) (pos 1) (pos 1000) m (omega arith)
      (omega arith) e

max_affected_request :
    (n m : ℤ) → resolve_max_affected n ≡ ok m → (m ≡ n) ⊎ ((n ≡ pos 0) × (m ≡ pos 1))
unfolding resolve_max_affected int_in_range
max_affected_request n m e = ground arith

-- The part of a build function that writes the guarded statement.
module _ (words : Wording) (match v mutation result alias entity hint : Str) (n m : ℤ) (b : Builder)
    (said : Words words v) (seq : IsSequential b) (max_ok : resolve_max_affected n ≡ ok m) where
  pub guarded_tail :
      (d : Draft) (c : Builder)
      → (guarded_mutation match v mutation result alias entity m >>= λ text.
            pure (write_draft text hint))
          b
        ≡ ok (d, c)
      → MutatesGuarded words match mutation result alias n (with_params d c)
  unfolding guarded_mutation ◌>>=◌ param pure
  guarded_tail d c h =
      let b1 = (add_param (int m) b).1 in
      let b2 = (add_param (str (refusal_message entity m)) b1).1 in
      let (p1, at1, keep1, seq1) = add_param_fresh (int m) b seq in
      let (p2, at2, keep2, seq2) = add_param_fresh (str (refusal_message entity m)) b1 seq1 in
      let (p3, at3, keep3, seq3) = add_param_fresh (str (no_match_message entity)) b2 seq2 in
      let same = ok_inj h in
      let (lo, hi) = max_affected_bounds n m max_ok in
      rw (← ap (λ (z : Draft × Builder). z.0) same, ← ap (λ (z : Draft × Builder). z.1) same)
        ((
          param_name (length b.params),
          param_name (length b2.params),
          param_name (length b1.params),
          m,
          refusal_message entity m,
          no_match_message entity,
          refl,
          rw (p1, p2, p3)
              (said match mutation result alias (param_name (length b.params))
                (param_name (length b2.params)) (param_name (length b1.params))),
          keep3 _ _ (keep2 _ _ at1),
          keep3 _ _ at2,
          at3,
          max_affected_request n m max_ok,
          lo,
          hi,
        ))

-- A dry run only previews, and otherwise the rest was run.
pub unless_dry_run_ok :
    (words : Wording) (t : Bool) (match v : Str) (rest : Build Draft) (b : Builder) (d : Draft)
    (c : Builder)
    → Previews words v
    → unless_dry_run t match v rest b ≡ ok (d, c)
    → ((t ≡ true) × PreviewsOnly words match (with_params d c))
      ⊎ ((t ≡ false) × (rest b ≡ ok (d, c)))
unfolding unless_dry_run
unless_dry_run_ok words true match v rest b d c said h =
    let same = pure_ok (read_draft (dry_run_query match v)) b (d, c) h in
    inl (refl, rw (← ap (λ (z : Draft × Builder). z.0) same) (refl, said match))
unless_dry_run_ok words false match v rest b d c said h = inr (refl, h)
