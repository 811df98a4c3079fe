-- ===== src/Graph/Narrowing.antt =====
-- The conditions that a match puts on what it selects, one for each part of a reference.
use neo4j_mcp_canary.Prelude.{
  ℕ, suc, ◌+◌, ◌≤◌, true, not, ◌||◌, List, [], ◌∷◌, ◌++◌, ◌≡◌, inl, inr, refl, sym, ap, ◌∙◌, arith,
  length, length-append, Bool-cases, if◌then◌else◌, Option, none, some, or_cases, append_assoc,
  append-nil,
}
use neo4j_mcp_canary.Text.{Str, codes, concat, join, ◌==s◌}
use neo4j_mcp_canary.Graphutil.Value.{Params, keys, str}
use neo4j_mcp_canary.Graphutil.Error.{Error, Result, ok, err, wrap}
use neo4j_mcp_canary.Graphutil.Builder.{Builder, Build, param, wrapping}
use neo4j_mcp_canary.Graphutil.Sort.{str_leb, insert_sorted, sort_strings}
use neo4j_mcp_canary.Graphutil.Quote.{where_clause}
use neo4j_mcp_canary.Graphutil.Filters.{
  Filter, match_conditions_of, match_conditions, filter_conditions_from,
}
use neo4j_mcp_canary.Graphutil.NodeRef.{
  NodeRef, empty_ref, is_empty, has_predicate, id_conditions, conditions, pattern_of,
}
use neo4j_mcp_canary.Graphutil.Success.{>>=_ok, lift-bind_ok, pure_ok}
use neo4j_mcp_canary.Graph.Common.{node_match}
use neo4j_mcp_canary.Graph.RelRef.{
  RelRef, optional_type, rel_match, rel_has_predicate, optional_has_predicate,
}
use neo4j_mcp_canary.Traversal.Expand.{or_empty}

-- One condition for an id, one for each property of the match, and one for each filter.
abbrev pub own_count : Str → Params → List Filter → ℕ
own_count id match filters = (if id ==s [] then 0 else 1) + (length match + length filters)

abbrev pub node_count : NodeRef → ℕ
node_count r = own_count r.id r.match r.filters

abbrev pub end_count : Option NodeRef → ℕ
end_count none = 0
end_count (some r) = node_count r

abbrev pub rel_count : RelRef → ℕ
rel_count r = (end_count r.from + end_count r.to) + own_count r.id r.match r.filters

-- The match has a WHERE with this many conditions, one at least, and all of them have to hold.
abbrev pub Narrowed : ℕ → Str → Type 0
Narrowed n match =
    (pattern : Str) × (c : Str) × (cs : List Str) × (suc (length cs) ≡ n)
    × (match ≡ codes "MATCH " ++ (pattern ++ (codes " WHERE " ++ join (c ∷ cs) (codes " AND "))))

length-insert_sorted : (s : Str) (ts : List Str) → length (insert_sorted s ts) ≡ suc (length ts)
unfolding insert_sorted
length-insert_sorted s [] = refl
length-insert_sorted s (t ∷ ts) = elim (Bool-cases (str_leb s t)) [
  | inl e ↦ rw e refl
  | inr e ↦ rw e (ap suc (length-insert_sorted s ts))
]

length-sort_strings : (ss : List Str) → length (sort_strings ss) ≡ length ss
unfolding sort_strings
length-sort_strings [] = refl
length-sort_strings (s ∷ ss) =
    length-insert_sorted s (sort_strings ss) ∙ ap suc (length-sort_strings ss)

length-keys : (m : Params) → length (keys m) ≡ length m
length-keys [] = refl
length-keys ((k, v) ∷ m) = ap suc (length-keys m)

length-id_conditions :
    (v id : Str) (b c : Builder) (xs : List Str)
    → id_conditions v id b ≡ ok (xs, c)
    → length xs ≡ (if id ==s [] then 0 else 1)
unfolding id_conditions
length-id_conditions v id b c xs h = elim (Bool-cases (id ==s [])) [
  | inl e ↦
      rw e (sym (ap (λ (z : List Str × Builder). length z.0) (pure_ok [] b (xs, c) (rw e at h))))
  | inr e ↦
      let (p, b', made, h') = >>=_ok (param (str id)) _ b (xs, c) (rw e at h) in
      rw e (sym (ap (λ (z : List Str × Builder). length z.0) (pure_ok _ b' (xs, c) h')))
]

length-match_conditions_of :
    (v : Str) (m : Params) (ks : List Str) (b c : Builder) (xs : List Str)
    → match_conditions_of v m ks b ≡ ok (xs, c)
    → length xs ≡ length ks
unfolding match_conditions_of
length-match_conditions_of v m [] b c xs h =
    sym (ap (λ (z : List Str × Builder). length z.0) (pure_ok [] b (xs, c) h))
length-match_conditions_of v m (k ∷ ks) b c xs h =
    let (x, b1, made, h1) = >>=_ok _ _ b (xs, c) h in
    let (ys, b2, rest, h2) = >>=_ok _ _ b1 (xs, c) h1 in
    sym (ap (λ (z : List Str × Builder). length z.0) (pure_ok (x ∷ ys) b2 (xs, c) h2))
    ∙ ap suc (length-match_conditions_of v m ks b1 b2 ys rest)

length-match_conditions :
    (v : Str) (m : Params) (b c : Builder) (xs : List Str)
    → match_conditions v m b ≡ ok (xs, c)
    → length xs ≡ length m
unfolding match_conditions
length-match_conditions v m b c xs h =
    length-match_conditions_of v m (sort_strings (keys m)) b c xs h
    ∙ (length-sort_strings (keys m) ∙ length-keys m)

length-filter_conditions_from :
    (v : Str) (i : ℕ) (fs : List Filter) (b c : Builder) (xs : List Str)
    → filter_conditions_from v i fs b ≡ ok (xs, c)
    → length xs ≡ length fs
unfolding filter_conditions_from
length-filter_conditions_from v i [] b c xs h =
    sym (ap (λ (z : List Str × Builder). length z.0) (pure_ok [] b (xs, c) h))
length-filter_conditions_from v i (f ∷ fs) b c xs h =
    let (x, b1, made, h1) = >>=_ok _ _ b (xs, c) h in
    let (ys, b2, rest, h2) = >>=_ok _ _ b1 (xs, c) h1 in
    sym (ap (λ (z : List Str × Builder). length z.0) (pure_ok (x ∷ ys) b2 (xs, c) h2))
    ∙ ap suc (length-filter_conditions_from v (suc i) fs b1 b2 ys rest)

length-conditions :
    (r : NodeRef) (v : Str) (b c : Builder) (xs : List Str)
    → conditions r v b ≡ ok (xs, c)
    → length xs ≡ node_count r
unfolding conditions
length-conditions r v b c xs h =
    let (i, b1, e1, h1) = >>=_ok _ _ b (xs, c) h in
    let (m, b2, e2, h2) = >>=_ok _ _ b1 (xs, c) h1 in
    let (f, b3, e3, h3) = >>=_ok _ _ b2 (xs, c) h2 in
    let same =
      ap (λ (z : List Str × Builder). length z.0) (pure_ok ((i ++ m) ++ f) b3 (xs, c) h3) in
    let li = length-id_conditions v r.id b b1 i e1 in
    let lm = length-match_conditions v r.match b1 b2 m e2 in
    let lf = length-filter_conditions_from v 0 r.filters b2 b3 f e3 in
    let a1 = length-append (i ++ m) f in let a2 = length-append i m in omega arith

length-pattern_of :
    (r : NodeRef) (v : Str) (b c : Builder) (p : Str × List Str)
    → pattern_of r v b ≡ ok (p, c)
    → length p.1 ≡ node_count r
unfolding pattern_of
length-pattern_of r v b c p h =
    let (labels, e, h1) = lift-bind_ok _ _ b (p, c) h in
    let (xs, b1, e1, h2) = >>=_ok _ _ b (p, c) h1 in
    sym (ap (λ (z : (Str × List Str) × Builder). length z.0.1) (pure_ok _ b1 (p, c) h2))
    ∙ length-conditions r v b b1 xs e1

has_own :
    (id : Str) (match : Params) (filters : List Filter)
    → (not (id ==s []) || not (is_empty match) || not (is_empty filters)) ≡ true
    → 1 ≤ own_count id match filters
has_own id (x ∷ match) filters h = omega arith
has_own id [] (x ∷ filters) h = omega arith
has_own id [] [] h = elim (Bool-cases (id ==s [])) [
  | inl e ↦ absurd (let bad = rw e at h in cc)
  | inr e ↦ rw e (omega arith)
]

-- A clause of some conditions is a WHERE with all of them.
Narrowed-where :
    (n : ℕ) (pattern match : Str) (conds : List Str)
    → 1 ≤ n
    → length conds ≡ n
    → codes "MATCH " ++ (pattern ++ (where_clause conds ++ [])) ≡ match
    → Narrowed n match
unfolding where_clause
Narrowed-where n pattern match [] some_cond size e = absurd (omega arith)
Narrowed-where n pattern match (c ∷ cs) some_cond size e =
    let trailing = append-nil (codes " WHERE " ++ join (c ∷ cs) (codes " AND ")) in
    (pattern, c, cs, size, sym e ∙ ap (λ x. codes "MATCH " ++ (pattern ++ x)) trailing)

pub node_match-Narrowed :
    (r : NodeRef) (v : Str) (b c : Builder) (match : Str)
    → has_predicate r ≡ true
    → node_match r v b ≡ ok (match, c)
    → Narrowed (node_count r) match
unfolding node_match has_predicate concat
node_match-Narrowed r v b c match some_part h =
    let (p, b1, e, h1) = >>=_ok _ _ b (match, c) h in
    Narrowed-where (node_count r) p.0 match p.1 (has_own r.id r.match r.filters some_part)
      (length-pattern_of r v b b1 p e)
      (ap (λ (z : Str × Builder). z.0) (pure_ok _ b1 (match, c) h1))

wrap_ok : {A : Type 0} (f : Error → Error) (r : Result A) (x : A) → wrap f r ≡ ok x → r ≡ ok x
wrap_ok f (ok a) x h = h
wrap_ok f (err e) x h = absurd (cc)

-- A wrapped step succeeds as the step does.
wrapping_ok :
    {A : Type 0} (f : Error → Error) (m : Build A) (b : Builder) (x : A × Builder)
    → wrapping f m b ≡ ok x
    → m b ≡ ok x
unfolding wrapping
wrapping_ok f m b x h = wrap_ok f (m b) x h

end_lem :
    (f : Error → Error) (o : Option NodeRef) (v : Str) (b c : Builder) (p : Str × List Str)
    → wrapping f (pattern_of (or_empty o) v) b ≡ ok (p, c)
    → length p.1 ≡ end_count o
unfolding ◌==s◌
end_lem f none v b c p h = length-pattern_of empty_ref v b c p (wrapping_ok f _ b (p, c) h)
end_lem f (some r) v b c p h = length-pattern_of r v b c p (wrapping_ok f _ b (p, c) h)

end_some : (o : Option NodeRef) → optional_has_predicate o ≡ true → 1 ≤ end_count o
unfolding has_predicate
end_some none h = absurd (cc)
end_some (some r) h = has_own r.id r.match r.filters h

rel_some : (r : RelRef) → rel_has_predicate r ≡ true → 1 ≤ rel_count r
unfolding rel_has_predicate
rel_some r h = elim (or_cases _ (optional_has_predicate r.to) h) [
  | inr t ↦ let le = end_some r.to t in omega arith
  | inl a ↦ elim (or_cases _ (optional_has_predicate r.from) a) [
    | inr f ↦ let le = end_some r.from f in omega arith
    | inl own ↦ let le = has_own r.id r.match r.filters own in omega arith
  ]
]

-- The pattern between the ends, in front of the conditions.
regroup :
    (s t d w : Str)
    → codes "MATCH " ++ ((s ++ (codes "-[r" ++ (t ++ (codes "]->" ++ d)))) ++ w)
      ≡ codes "MATCH " ++ (s ++ (codes "-[r" ++ (t ++ (codes "]->" ++ (d ++ w)))))
regroup s t d w =
    ap (λ x. codes "MATCH " ++ x)
      (append_assoc s _ w ∙ ap (λ x. s ++ (codes "-[r" ++ x)) (append_assoc t (codes "]->" ++ d) w))

conditions_size :
    (s d i m f : List Str) {k l n p q : ℕ}
    → length s ≡ k
    → length d ≡ l
    → length i ≡ n
    → length m ≡ p
    → length f ≡ q
    → length ((((s ++ d) ++ i) ++ m) ++ f) ≡ (k + l) + (n + (p + q))
conditions_size s d i m f e1 e2 e3 e4 e5 =
    let a1 = length-append (((s ++ d) ++ i) ++ m) f in
    let a2 = length-append ((s ++ d) ++ i) m in
    let a3 = length-append (s ++ d) i in let a4 = length-append s d in omega arith

pub rel_match-Narrowed :
    (r : RelRef) (b c : Builder) (match : Str)
    → rel_has_predicate r ≡ true
    → rel_match r b ≡ ok (match, c)
    → Narrowed (rel_count r) match
unfolding rel_match concat
rel_match-Narrowed r b c match some_part h =
    let (src, b1, e1, h1) = >>=_ok _ _ b (match, c) h in
    let (dst, b2, e2, h2) = >>=_ok _ _ b1 (match, c) h1 in
    let (i, b3, e3, h3) = >>=_ok _ _ b2 (match, c) h2 in
    let (m, b4, e4, h4) = >>=_ok _ _ b3 (match, c) h3 in
    let (f, b5, e5, h5) = >>=_ok _ _ b4 (match, c) h4 in
    let size =
      conditions_size src.1 dst.1 i m f (end_lem _ r.from _ b b1 src e1)
        (end_lem _ r.to _ b1 b2 dst e2) (length-id_conditions _ r.id b2 b3 i e3)
        (length-match_conditions _ r.match b3 b4 m e4)
        (length-filter_conditions_from _ 0 r.filters b4 b5 f e5) in
    Narrowed-where (rel_count r)
      (src.0 ++ (codes "-[r" ++ (optional_type r.type ++ (codes "]->" ++ dst.0)))) match
      ((((src.1 ++ dst.1) ++ i) ++ m) ++ f) (rel_some r some_part) size
      (regroup src.0 (optional_type r.type) dst.0 _
        ∙ ap (λ (z : Str × Builder). z.0) (pure_ok _ b5 (match, c) h5))
