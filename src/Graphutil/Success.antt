-- ===== src/Graphutil/Success.antt =====
-- What the success of a build step says about its parts.
use neo4j_mcp_canary.Prelude.{Bool, true, false, ◌≡◌, refl}
use neo4j_mcp_canary.Graphutil.Error.{Error, Result, ok, err, require, ok_inj}
use neo4j_mcp_canary.Graphutil.Builder.{Builder, new_builder, Build, continue, ◌>>=◌, pure, lift}
use neo4j_mcp_canary.Graphutil.Query.{Query, Draft, close, with_params, run_build}

module _ {A B : Type 0} where
  continue_ok :
      (r : Result (A × Builder)) (f : A → Build B) (x : B × Builder)
      → continue r f ≡ ok x
      → (a : A) × (c : Builder) × (r ≡ ok (a, c)) × (f a c ≡ ok x)
  continue_ok (ok (a, c)) f x h = (a, c, refl, h)
  continue_ok (err e) f x h = absurd (cc)

  -- A chain that succeeds goes through a success of its first step.
  pub >>=_ok :
      (m : Build A) (f : A → Build B) (b : Builder) (x : B × Builder)
      → (m >>= f) b ≡ ok x
      → (a : A) × (c : Builder) × (m b ≡ ok (a, c)) × (f a c ≡ ok x)
  unfolding ◌>>=◌
  >>=_ok m f b x h = continue_ok (m b) f x h

  -- A lifted result is one that succeeded, and the builder is the old one.
  pub lift-bind_ok :
      (r : Result A) (f : A → Build B) (b : Builder) (x : B × Builder)
      → (lift r >>= f) b ≡ ok x
      → (a : A) × (r ≡ ok a) × (f a b ≡ ok x)
  unfolding ◌>>=◌ lift
  lift-bind_ok (ok a) f b x h = (a, refl, h)
  lift-bind_ok (err e) f b x h = absurd (cc)

module _ {A : Type 0} where
  pub pure_ok : (a : A) (b : Builder) (x : A × Builder) → pure a b ≡ ok x → (a, b) ≡ x
  unfolding pure
  pure_ok a b x h = ok_inj h

pub require_ok : (t : Bool) (e : Error) (u : Unit) → require t e ≡ ok u → t ≡ true
require_ok true e u h = refl
require_ok false e u h = absurd (cc)

close_ok :
    (r : Result (Draft × Builder)) (q : Query)
    → close r ≡ ok q
    → (d : Draft) × (b : Builder) × (r ≡ ok (d, b)) × (q ≡ with_params d b)
close_ok (ok (d, b)) q h = (d, b, refl, ok_inj (let e : ok q ≡ ok (with_params d b) = cc in e))
close_ok (err e) q h = absurd (cc)

-- A query is a draft with the parameters of the builder that its body leaves.
pub run_build_ok :
    (m : Build Draft) (q : Query)
    → run_build m ≡ ok q
    → (d : Draft) × (b : Builder) × (m new_builder ≡ ok (d, b)) × (q ≡ with_params d b)
unfolding run_build
run_build_ok m q h = close_ok (m new_builder) q h
