-- ===== src/Graphutil/Erase/Sim.antt =====
-- Two runs of a build step that register different values under the same names.
use neo4j_mcp_canary.Prelude.{
  Bool, true, false, List, [], ◌∷◌, ◌≡◌, refl, ap, arith, length, if◌then◌else◌, Bool-cases, inl,
  inr,
}
use neo4j_mcp_canary.Text.{Str, ◌==s◌}
use neo4j_mcp_canary.Graphutil.Value.{Value, Params, assign, keys}
use neo4j_mcp_canary.Graphutil.Error.{Error, Result, ok, err, wrap}
use neo4j_mcp_canary.Graphutil.Query.{Draft, close, run_build, statement}
use neo4j_mcp_canary.Graphutil.Builder.{
  Builder, new_builder, param_name, Build, ◌>>=◌, pure, lift, param, wrapping, continue,
}

abbrev pub SameKeys : Builder → Builder → Type 0
SameKeys b c = keys b.params ≡ keys c.params

-- Both fail with one error, or both succeed with one result and builders of the same names.
abbrev pub SimResult : {A : Type 0} → Result (A × Builder) → Result (A × Builder) → Type 0
SimResult (ok (x, b)) (ok (y, c)) = (x ≡ y) × SameKeys b c
SimResult (ok r) (err e) = ⊥
SimResult (err e) (ok r) = ⊥
SimResult (err e) (err f) = e ≡ f

pub record Sim {A : Type 0} (m n : Build A) : Type 0 where
  pub at : (b c : Builder) → SameKeys b c → SimResult (m b) (n c)

length-keys : (m : Params) → length (keys m) ≡ length m
length-keys [] = refl
length-keys ((k, v) ∷ m) = omega (arith, length-keys m)

abbrev add_key : Str → List Str → List Str
add_key k [] = k ∷ []
add_key k (j ∷ js) = if k ==s j then k ∷ js else j ∷ add_key k js

keys-assign : (k : Str) (v : Value) (m : Params) → keys (assign k v m) ≡ add_key k (keys m)
unfolding assign
keys-assign k v [] = refl
keys-assign k v ((j, w) ∷ m) = elim (Bool-cases (k ==s j)) [
  | inl e ↦ rw e
  | inr e ↦ rw e (ap (λ l. j ∷ l) (keys-assign k v m))
]

module _ {A : Type 0} where
  pub Sim-pure : (a : A) → Sim (pure a) (pure a)
  unfolding pure
  Sim-pure a = record { at = λ b c h. (refl, h) }

  pub Sim-lift : (r : Result A) → Sim (lift r) (lift r)
  unfolding lift
  Sim-lift (ok a) = record { at = λ b c h. (refl, h) }
  Sim-lift (err e) = record { at = λ b c h. refl }

  pub Sim-if :
      (t : Bool) (m n m' n' : Build A)
      → Sim m m'
      → Sim n n'
      → Sim (if t then m else n) (if t then m' else n')
  Sim-if true m n m' n' h k = h
  Sim-if false m n m' n' h k = k

SimResult-wrap :
    {A : Type 0} (f : Error → Error) (r s : Result (A × Builder))
    → SimResult r s
    → SimResult (wrap f r) (wrap f s)
SimResult-wrap f (ok (x, b)) (ok (y, c)) h = h
SimResult-wrap f (ok r) (err e) h = h
SimResult-wrap f (err e) (ok r) h = h
SimResult-wrap f (err e) (err g) h = ap f h

module _ {A : Type 0} where
  pub Sim-wrapping :
      (f : Error → Error) (m n : Build A) → Sim m n → Sim (wrapping f m) (wrapping f n)
  unfolding wrapping
  Sim-wrapping f m n h = record { at = λ b c k. SimResult-wrap f (m b) (n c) (h.at b c k) }

-- The placeholder depends on the names allocated so far, and not on the value.
pub Sim-param : (v w : Value) → Sim (param v) (param w)
unfolding param
Sim-param v w = record {
  at = λ b c h.
      let same : length b.params ≡ length c.params =
        omega (
          arith,
          length-keys b.params,
          length-keys c.params,
          ap {B = Prim.Native.Nat.ℕ} length h,
        ) in
      (
        ap (λ n. b'$' ∷ param_name n) same,
        rw (keys-assign (param_name (length b.params)) v b.params) (
            rw (keys-assign (param_name (length c.params)) w c.params)
              (λ i. add_key (param_name (same i)) (h i))),
      );
}

module _ {A B : Type 0} where
  SimResult-continue :
      (r s : Result (A × Builder)) (f g : A → Build B)
      → SimResult r s
      → ((a : A) → Sim (f a) (g a))
      → SimResult (continue r f) (continue s g)
  SimResult-continue (ok (x, b)) (ok (y, c)) f g (e, h) k = rw e ((k y).at b c h)
  SimResult-continue (ok (x, b)) (err e) f g h k = elim h [ ]
  SimResult-continue (err e) (ok (y, c)) f g h k = elim h [ ]
  SimResult-continue (err e) (err e') f g h k = h

  pub Sim-bind :
      (m n : Build A) (f g : A → Build B)
      → Sim m n
      → ((a : A) → Sim (f a) (g a))
      → Sim (m >>= f) (n >>= g)
  unfolding ◌>>=◌
  Sim-bind m n f g h k = record { at = λ b c e. SimResult-continue (m b) (n c) f g (h.at b c e) k }

pub ruleset sim_rules = (Sim-pure, Sim-lift, Sim-if, Sim-wrapping, Sim-param, Sim-bind)

statement-close :
    (r s : Result (Draft × Builder)) → SimResult r s → statement (close r) ≡ statement (close s)
statement-close (ok (x, b)) (ok (y, c)) (e, h) =
    ap (λ d. ok (record { cypher = d.cypher; write = d.write; error_hint = d.error_hint })) e
statement-close (ok (x, b)) (err e) h = elim h [ ]
statement-close (err e) (ok (y, c)) h = elim h [ ]
statement-close (err e) (err f) h = ap err h

-- Two simulated build functions send one statement, or fail with one error.
pub statement-run_build :
    (m n : Build Draft) → Sim m n → statement (run_build m) ≡ statement (run_build n)
unfolding run_build
statement-run_build m n h =
    statement-close (m new_builder) (n new_builder) (h.at new_builder new_builder refl)
