-- ===== src/Readiness.antt =====
-- readiness/readiness.go: what the server finds out about the database that it is connected to. The
-- methods of the database service are parameters; a record is an association list of its keys.
pub mod Floors
use neo4j_mcp_canary.Prelude.{
  ℕ, Bool, true, false, ◌&&◌, ◌||◌, not, List, [], ◌∷◌, ◌++◌, ◌⊎◌, inl, inr, Option, none, some,
  if◌then◌else◌, drop, length,
}
use neo4j_mcp_canary.Text.{Str, codes, ◌==s◌, has_prefix}
use neo4j_mcp_canary.Text.Search.{split}
use neo4j_mcp_canary.Graphutil.Value.{
  Value, null, bool, int, float, str, arr, Items, nil, cons, Params, lookup,
}
use neo4j_mcp_canary.Config.Scan.{is_digit, is_ident}
use neo4j_mcp_canary.Database.Version.{
  is_number, Verdict, meets_minimum_version, is_met, has_panicked,
}
use neo4j_mcp_canary.Server.Tools.{Capabilities}

-- The methods of the database service that the checker calls.
pub record ReadinessService : Type 0 where
  pub verify_connectivity : Option Str
  pub execute_read_query : Str → Str ⊎ List Params

abbrev pub is_string : Value → Bool
is_string (str s) = true
is_string v = false

abbrev pub is_gds_version : Str ⊎ List Params → Bool
is_gds_version (inr (((k, v) ∷ []) ∷ [])) = is_string v
is_gds_version result = false

-- checkGDSInstalled
unfoldable pub check_gds_installed : ReadinessService → Bool
check_gds_installed db =
    is_gds_version (db.execute_read_query (codes "RETURN gds.version() as gdsVersion"))

abbrev pub is_kernel : Option Value → Bool
is_kernel (some (str name)) = name ==s codes "Neo4j Kernel"
is_kernel v = false

-- The first of the versions of a record, when it is a string.
abbrev pub first_version : Option Value → Option Str
first_version (some (arr (cons (str v) rest))) = some v
first_version versions = none

abbrev pub or_next : Option Str → Str → Str
or_next (some v) rest = v
or_next none rest = rest

-- kernelVersion: "" when there is none
unfoldable pub kernel_version : List Params → Str
unfolding lookup
kernel_version [] = []
kernel_version (row ∷ records) =
    let rest = kernel_version records in
    if is_kernel (lookup (codes "name") row)
    then or_next (first_version (lookup (codes "versions") row)) rest
    else rest

-- A word of the pattern, and no word character behind it.
abbrev pub ends_word : Str → Bool
ends_word [] = true
ends_word (c ∷ s) = not (is_ident c)

abbrev pub is_host_at : Str → Str → Bool
is_host_at host s = has_prefix s host && ends_word (drop (length host) s)

-- IsAuraHost: (databases|instances)\.neo4j\.io\b
unfoldable pub is_aura_host : Str → Bool
unfolding has_prefix
is_aura_host [] = false
is_aura_host (c ∷ uri) =
    is_host_at (codes "databases.neo4j.io") (c ∷ uri)
    || is_host_at (codes "instances.neo4j.io") (c ∷ uri)
    || is_aura_host uri

-- The normalization of a version that matches bareClassicVersionPattern: ^(\d+)\.(\d+)(?:\.\d+)?$
abbrev pub aura_parts : Str → List Str → Str
aura_parts version (a ∷ b ∷ []) =
    if is_number a && is_number b then a ++ (codes "." ++ (b ++ codes "-aura")) else version
aura_parts version (a ∷ b ∷ p ∷ []) =
    if is_number a && is_number b && is_number p
    then a ++ (codes "." ++ (b ++ codes "-aura"))
    else version
aura_parts version parts = version

unfoldable pub normalize_version : Str → Str → Str
unfolding is_aura_host split
normalize_version uri version =
    if is_aura_host uri then aura_parts version (split version b'.') else version

-- The answers for search and for Cypher 25, from the two comparisons: none where one panics.
abbrev pub both : Verdict → Verdict → Option (Bool × Bool)
both search cypher25 =
    if has_panicked search || has_panicked cypher25
    then none
    else some (is_met search, is_met cypher25)

abbrev pub supports : Str → Option (Bool × Bool)
supports version =
    both (meets_minimum_version version 2026 9 5 27) (meets_minimum_version version 2025 6 5 26)

abbrev pub support_of_version : Str → Str → Option (Bool × Bool)
support_of_version uri version =
    if version ==s [] then some (false, false) else supports (normalize_version uri version)

abbrev pub support_of_components : Str → Str ⊎ List Params → Option (Bool × Bool)
support_of_components uri (inl e) = some (false, false)
support_of_components uri (inr records) = support_of_version uri (kernel_version records)

-- checkVersionSupport: for search, and for Cypher 25; none where it panics
unfoldable pub check_version_support : ReadinessService → Str → Option (Bool × Bool)
unfolding kernel_version normalize_version
check_version_support db uri =
    support_of_components uri (db.execute_read_query (codes "CALL dbms.components()"))

-- What Verify gives: an error, the capabilities, or no result where it panics.
pub data Verification : Type 0 where
  failed : Str → Verification
  found : Capabilities → Verification
  panicked : Verification

abbrev pub with_support : ReadinessService → Option (Bool × Bool) → Verification
with_support db none = panicked
with_support db (some (search, cypher25)) = found (record {
  gds_installed = check_gds_installed db;
  search_version_supported = search;
  cypher25_supported = cypher25;
})

abbrev pub after_connectivity : ReadinessService → Str → Option Str → Verification
after_connectivity db uri (some e) = failed e
after_connectivity db uri none = with_support db (check_version_support db uri)

-- Verify
unfoldable pub verify : ReadinessService → Str → Verification
unfolding check_gds_installed
verify db uri = after_connectivity db uri db.verify_connectivity
