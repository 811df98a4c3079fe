-- ===== src/Auth.antt =====
-- auth/auth.go: what the middleware stores in a request's context for the tools.
use neo4j_mcp_canary.Prelude.{Bool, ◌||◌, List, Option, none, some, is_some}
use neo4j_mcp_canary.Text.{Str}

-- config.EmbeddingConfig
pub record EmbeddingConfig : Type 0 where
  pub provider : Str
  pub configuration : List (Str × Str)

-- The values that the keys of context.go have in a context.
pub record Context : Type 0 where
  pub basic_auth : Option (Str × Str)
  pub bearer_token : Option Str
  pub tool_selection : Option (List Str × List Str)
  pub instance_selection : Option Str
  pub embedding_config : Option EmbeddingConfig

-- context.Background, as far as these keys go
abbrev pub background : Context
background = record {
  basic_auth = none;
  bearer_token = none;
  tool_selection = none;
  instance_selection = none;
  embedding_config = none;
}

abbrev pub with_basic_auth : Context → Str → Str → Context
with_basic_auth ctx user pass = record ctx { basic_auth = some (user, pass) }

abbrev pub with_bearer_token : Context → Str → Context
with_bearer_token ctx token = record ctx { bearer_token = some token }

abbrev pub with_tool_selection : Context → List Str → List Str → Context
with_tool_selection ctx names categories = record ctx { tool_selection = some (names, categories) }

abbrev pub with_instance_selection : Context → Str → Context
with_instance_selection ctx name = record ctx { instance_selection = some name }

abbrev pub with_embedding_config : Context → EmbeddingConfig → Context
with_embedding_config ctx cfg = record ctx { embedding_config = some cfg }

-- HasAuth
unfoldable pub has_auth : Context → Bool
has_auth ctx = is_some ctx.basic_auth || is_some ctx.bearer_token
