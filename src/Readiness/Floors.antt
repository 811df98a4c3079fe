-- ===== src/Readiness/Floors.antt =====
-- The two version floors against each other.
use neo4j_mcp_canary.Prelude.{
  ℕ, Bool, true, false, ◌||◌, refl, List, [], ◌⊎◌, inl, inr, Option, none, some, ◌≡◌, sym, ap, ◌∙◌,
  arith, Bool-cases, some_inj,
}
use neo4j_mcp_canary.Text.{Str, ◌==s◌, codes}
use neo4j_mcp_canary.Graphutil.Value.{Params}
use neo4j_mcp_canary.Database.Version.{
  is_below, against_floor, against_numbers, meets_minimum_version, is_met, has_panicked,
  calendar_version, classic_aura_version, Verdict, below_calendar, below_classic, atoi_must,
}
use neo4j_mcp_canary.Server.Tools.{Capabilities}
use neo4j_mcp_canary.Readiness.{
  ReadinessService, supports, support_of_version, support_of_components, check_version_support,
  after_connectivity, verify, kernel_version, normalize_version, both, with_support, found,
}

below_calendar_mono : (a b : ℕ) → is_below a b 2026 9 ≡ false → is_below a b 2025 6 ≡ false
below_calendar_mono a b h = ground arith

below_classic_mono : (a b : ℕ) → is_below a b 5 27 ≡ false → is_below a b 5 26 ≡ false
below_classic_mono a b h = ground arith

-- Two floors on the same numbers, of which one is at least the other.
numbers_lem :
    (below below' : Verdict) (min_a min_b min_a' min_b' : ℕ)
    → ((a b : ℕ) → is_below a b min_a min_b ≡ false → is_below a b min_a' min_b' ≡ false)
    → (a b : Option ℕ) → is_met below ≡ false
    → is_met (against_numbers below min_a min_b a b) ≡ true
    → is_met (against_numbers below' min_a' min_b' a b) ≡ true
numbers_lem below below' min_a min_b min_a' min_b' mono none b e h = absurd (cc)
numbers_lem below below' min_a min_b min_a' min_b' mono (some a) none e h = absurd (cc)
numbers_lem below below' min_a min_b min_a' min_b' mono (some a) (some b) e h =
    elim (Bool-cases (is_below a b min_a min_b)) [
      | inl low ↦ absurd (let bad = rw low at h in cc)
      | inr high ↦ rw (mono a b high)
    ]

floors_lem :
    (calendar classic : Option (Str × Str))
    → is_met (against_floor 2026 9 5 27 calendar classic) ≡ true
    → is_met (against_floor 2025 6 5 26 calendar classic) ≡ true
floors_lem (some (y, m)) classic h =
    numbers_lem (below_calendar 2026 9) (below_calendar 2025 6) 2026 9 2025 6 below_calendar_mono
      (atoi_must y) (atoi_must m) refl h
floors_lem none none h = absurd (cc)
floors_lem none (some (a, b)) h =
    numbers_lem (below_classic 5 27) (below_classic 5 26) 5 27 5 26 below_classic_mono (atoi_must a)
      (atoi_must b) refl h

both_lem :
    (v w : Verdict)
    → (is_met v ≡ true → is_met w ≡ true)
    → (s : Bool × Bool) → both v w ≡ some s
    → s.0 ≡ true
    → s.1 ≡ true
both_lem v w mono s h search = elim (Bool-cases (has_panicked v || has_panicked w)) [
  | inl e ↦ absurd (let bad = rw e at h in cc)
  | inr e ↦
      let same = some_inj (rw e at h) in
      sym (ap (λ (t : Bool × Bool). t.1) same) ∙ mono (ap (λ (t : Bool × Bool). t.0) same ∙ search)
]

supports_lem :
    (version : Str) (s : Bool × Bool) → supports version ≡ some s → s.0 ≡ true → s.1 ≡ true
unfolding meets_minimum_version
supports_lem version s h =
    both_lem (meets_minimum_version version 2026 9 5 27) (meets_minimum_version version 2025 6 5 26)
      (floors_lem (calendar_version version) (classic_aura_version version)) s h

support_of_version_lem :
    (uri version : Str) (s : Bool × Bool)
    → support_of_version uri version ≡ some s
    → s.0 ≡ true
    → s.1 ≡ true
support_of_version_lem uri version s h search = elim (Bool-cases (version ==s [])) [
  | inl e ↦
      absurd (let same = some_inj (rw e at h) in let bad = ap (λ (t : Bool × Bool). t.0) same in cc)
  | inr e ↦ supports_lem (normalize_version uri version) s (rw e at h) search
]

support_of_components_lem :
    (uri : Str) (o : Str ⊎ List Params) (s : Bool × Bool)
    → support_of_components uri o ≡ some s
    → s.0 ≡ true
    → s.1 ≡ true
support_of_components_lem uri (inl e) s h search =
    absurd (let bad = ap (λ (t : Bool × Bool). t.0) (some_inj h) in cc)
support_of_components_lem uri (inr records) s h search =
    support_of_version_lem uri (kernel_version records) s h search

found_inj : {a b : Capabilities} → found a ≡ found b → a ≡ b
found_inj h = cc

with_support_lem :
    (db : ReadinessService) (o : Option (Bool × Bool)) (caps : Capabilities)
    → ((s : Bool × Bool) → o ≡ some s → s.0 ≡ true → s.1 ≡ true)
    → with_support db o ≡ found caps
    → caps.search_version_supported ≡ true
    → caps.cypher25_supported ≡ true
with_support_lem db none caps floors h s = absurd (cc)
with_support_lem db (some (search, cypher25)) caps floors h s =
    let same = found_inj h in
    ap (λ (c : Capabilities). c.cypher25_supported) (sym same)
    ∙ floors (search, cypher25) refl
        (ap (λ (c : Capabilities). c.search_version_supported) same ∙ s)

after_connectivity_lem :
    (db : ReadinessService) (uri : Str) (o : Option Str) (caps : Capabilities)
    → after_connectivity db uri o ≡ found caps
    → caps.search_version_supported ≡ true
    → caps.cypher25_supported ≡ true
unfolding check_version_support
after_connectivity_lem db uri (some e) caps h s = absurd (cc)
after_connectivity_lem db uri none caps h s =
    with_support_lem db (check_version_support db uri) caps
      (support_of_components_lem uri (db.execute_read_query (codes "CALL dbms.components()"))) h s

-- Whatever the database answers, a verification that succeeds never reports that the search tools are
-- supported without Cypher 25: the floor of the graph, traversal and pattern tools is the lower one.
pub verify_floors :
    (db : ReadinessService) (uri : Str) (caps : Capabilities)
    → verify db uri ≡ found caps
    → caps.search_version_supported ≡ true
    → caps.cypher25_supported ≡ true
unfolding verify
verify_floors db uri caps h s = after_connectivity_lem db uri db.verify_connectivity caps h s
