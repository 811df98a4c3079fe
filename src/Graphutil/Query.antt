-- ===== src/Graphutil/Query.antt =====
-- graphutil/handler.go: `Query`, what a build function produces.
use neo4j_mcp_canary.Prelude.{Bool, true, false, []}
use neo4j_mcp_canary.Text.{Str}
use neo4j_mcp_canary.Graphutil.Value.{Params}
use neo4j_mcp_canary.Graphutil.Error.{Result, ok, err}
use neo4j_mcp_canary.Graphutil.Builder.{Builder, new_builder, Build}

pub record Query : Type 0 where
  pub cypher : Str
  pub params : Params
  pub write : Bool
  pub error_hint : Str

-- A query whose parameters are still the builder's.
pub record Draft : Type 0 where
  pub cypher : Str
  pub write : Bool
  pub error_hint : Str

abbrev pub read_draft : Str → Draft
read_draft text = record { cypher = text; write = false; error_hint = [] }

abbrev pub write_draft : Str → Str → Draft
write_draft text hint = record { cypher = text; write = true; error_hint = hint }

abbrev pub with_params : Draft → Builder → Query
with_params d b = record {
  cypher = d.cypher;
  params = b.params;
  write = d.write;
  error_hint = d.error_hint;
}

abbrev pub close : Result (Draft × Builder) → Result Query
close (ok (d, b)) = ok (with_params d b)
close (err e) = err e

-- `b := NewBuilder()`, the body of a build function, and `Params: b.Params()` in its result.
unfoldable pub run_build : Build Draft → Result Query
run_build m = close (m new_builder)

-- All of a result but the parameters: the statement that the database is sent, and its routing.
abbrev pub statement : Result Query → Result Draft
statement (ok q) = ok (record { cypher = q.cypher; write = q.write; error_hint = q.error_hint })
statement (err e) = err e
