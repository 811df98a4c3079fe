-- ===== src/Server/Middleware/Instance/Route.antt =====
-- A whole route of the multi-instance mode: which requests reach the handler behind it, and the
-- statuses of the others.
use neo4j_mcp_canary.Prelude.{List, [], ◌∷◌, Option, ◌≡◌, ◌≢◌, ◌↔◌, inl, inr, refl, Bool-cases}
use neo4j_mcp_canary.Text.{Str, codes, ◌==s◌}
use neo4j_mcp_canary.Text.Laws.{==s_iff}
use neo4j_mcp_canary.Auth.{with_tool_selection}
use neo4j_mcp_canary.Server.Http.{Headers, header_get, Request, Decoders, Answer, reach}
use neo4j_mcp_canary.Server.Middleware.{Config, parse_comma_list}
use neo4j_mcp_canary.Config.Instances.{NeoInstance}
use neo4j_mcp_canary.Server.Middleware.Instance.{
  BearerVerifyFunc, instance_auth_middleware, scheme, chain_middleware_for_instance,
}
use neo4j_mcp_canary.Server.Middleware.Instance.Access.{Allowed, Served, with_context, not_replied}
use neo4j_mcp_canary.Server.Middleware.Instance.Exact.{instance_auth_lem}

-- The request with the tool selection of its headers.
abbrev pub selecting : Config → Request → Request
selecting config r = with_context r (
    with_tool_selection r.context
      (parse_comma_list (header_get r.headers config.http_tools_header_name))
      (parse_comma_list (header_get r.headers config.http_tool_categories_header_name)))

-- A preflight request is answered by the CORS middleware, if there are allowed origins.
abbrev pub IsPreflight : List Str → Request → Type 0
IsPreflight origins r = (origins ≢ []) × (r.method ≡ codes "OPTIONS")

module _ (decoders : Decoders) (config : Config) (verify : Option BearerVerifyFunc)
    (inst : NeoInstance) (r r' : Request) where
  inner : Headers → Answer
  inner headers =
      instance_auth_middleware decoders reach inst.name inst.auth inst.embedding
        config.http_api_key_header_name (scheme config) verify headers (selecting config r)

  inner_lem :
      (headers : Headers)
      → Served (inner headers) r'
        ↔ Allowed decoders inst.name inst.auth inst.embedding config.http_api_key_header_name verify
            (selecting config r)
            r'
  unfolding inner
  inner_lem headers =
      instance_auth_lem decoders inst.name inst.auth inst.embedding config.http_api_key_header_name
        (scheme config) verify headers (selecting config r) r'

  -- A route hands a request to the handler behind it exactly when it is no preflight request (an
  -- OPTIONS request where origins are allowed) and carries the credentials that the instance asks
  -- for: one of its keys, a user and a password that are not empty, or a bearer token that the
  -- configured verifier accepts. The request is handed on unchanged but for its context, which has
  -- the instance's name and embedding provider, the client's tool selection, and the credentials
  -- that go on to the database.
  pub chain_middleware_for_instance_lem :
      (origins : List Str) (headers : Headers)
      → Served
          (chain_middleware_for_instance decoders config verify inst origins reach headers r)
          r'
        ↔ ((¬ IsPreflight origins r)
            × Allowed decoders inst.name inst.auth inst.embedding config.http_api_key_header_name
                verify
                (selecting config r)
                r')
  unfolding chain_middleware_for_instance inner
  chain_middleware_for_instance_lem [] headers =
      (λ h. (λ p. p.0 refl, (inner_lem headers).0 h), λ h. (inner_lem headers).1 h.1)
  chain_middleware_for_instance_lem (o ∷ os) headers =
      elim (Bool-cases (r.method ==s codes "OPTIONS")) [
        | inl e ↦ (
          λ h. absurd (not_replied (rw e at h)),
          λ h. absurd (h.0 (λ q. absurd (cc), (==s_iff _ _).0 e)),
        )
        | inr e ↦ (
          λ h. (
            λ p. let bad = rw ((==s_iff r.method (codes "OPTIONS")).1 p.1) at e in absurd (cc),
            (inner_lem _).0 (rw e at h),
          ),
          λ h. rw e ((inner_lem _).1 h.1),
        )
      ]
