-- ===== src/Patterns/Chain.antt =====
-- patterns/chain.go: find-relationship-chain.
use neo4j_mcp_canary.Prelude.{
  ℕ, suc, ◌+◌, not, ◌||◌, List, [], ◌∷◌, ◌++◌, Option, length, ltb, ℤ, pos,
}
use neo4j_mcp_canary.Text.{Str, codes, concat, itoa}
use neo4j_mcp_canary.Graphutil.Value.{int}
use neo4j_mcp_canary.Graphutil.Error.{
  Result, require, wrap, context, context_at, must_select, bad_step_count,
}
use neo4j_mcp_canary.Graphutil.Builder.{Build, ◌>>=◌, ◌>>◌, pure, lift, param, wrapping}
use neo4j_mcp_canary.Graphutil.NodeRef.{NodeRef, is_empty, has_predicate, inline_ref}
use neo4j_mcp_canary.Graphutil.Limits.{int_in_range, single_rel}
use neo4j_mcp_canary.Graphutil.Projection.{path_map}
use neo4j_mcp_canary.Graphutil.Query.{Query, Draft, read_draft, run_build}
use neo4j_mcp_canary.Traversal.Expand.{or_empty}
use neo4j_mcp_canary.Graph.RelRef.{optional_type}

pub record ChainStep : Type 0 where
  pub type : Str
  pub direction : Str
  pub node : Option NodeRef

pub record FindRelationshipChainInput : Type 0 where
  pub start : NodeRef
  pub steps : List ChainStep
  pub node_properties : List Str
  pub limit : ℤ

-- fmt.Sprintf("n%d", i)
abbrev pub node_var : ℕ → Str
node_var i = b'n' ∷ itoa i

-- One round of the loop over the steps: what it writes to the string builder.
unfoldable pub chain_step : ℕ → ChainStep → Build Str
chain_step i step =
    lift
      (wrap (context_at (codes "steps") i) (single_rel step.direction [] (optional_type step.type)))
    >>= λ rel.
        wrapping (context_at (codes "steps.node") i)
          (inline_ref (or_empty step.node) (node_var (i + 1)))
        >>= λ node. pure (rel ++ node)

-- The loop over the steps, at index `i`.
unfoldable pub chain_steps : ℕ → List ChainStep → Build Str
chain_steps i [] = pure []
chain_steps i (s ∷ ss) = chain_step i s >>= λ t. chain_steps (suc i) ss >>= λ ts. pure (t ++ ts)

unfoldable pub chain_body : FindRelationshipChainInput → Build Draft
chain_body input =
    lift (require (has_predicate input.start) (must_select (codes "start")))
    >> (lift (
          require (not (is_empty input.steps || ltb 6 (length input.steps)))
            (bad_step_count (length input.steps)))
        >> (lift (int_in_range (codes "limit") input.limit (pos 25) (pos 1) (pos 200)) >>= λ limit.
            wrapping (context (codes "start")) (inline_ref input.start (codes "n0")) >>= λ start.
            chain_steps 0 input.steps >>= λ steps. param (int limit) >>= λ l. pure (
              read_draft (
                concat (
                  codes "MATCH p = "
                  ∷ start
                  ∷ steps
                  ∷ codes "\nRETURN "
                  ∷ path_map (codes "p") input.node_properties
                  ∷ codes " AS path\nLIMIT "
                  ∷ l
                  ∷ [])))))

-- buildFindRelationshipChain
unfoldable pub build_find_relationship_chain : FindRelationshipChainInput → Result Query
unfolding chain_body
build_find_relationship_chain input = run_build (chain_body input)
