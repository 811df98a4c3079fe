-- ===== src/Server/Middleware/Exact.antt =====
-- The single-instance chain, middleware by middleware, against the description of whom it serves.
use neo4j_mcp_canary.Prelude.{
  true, List, [], ◌∷◌, Option, none, some, ◌≡◌, ◌≢◌, ◌⊎◌, inl, inr, refl, sym, ◌↔◌, Bool-cases, leb,
  length, drop,
}
use mathlib.Core.Path.{subst}
use neo4j_mcp_canary.Text.{Str, codes, ◌==s◌, trim_space, has_prefix}
use neo4j_mcp_canary.Text.Laws.{==s_iff, has_prefix-append}
use neo4j_mcp_canary.Text.Search.{cut_prefix}
use neo4j_mcp_canary.Text.Cut.{append_of_cut_prefix}
use neo4j_mcp_canary.Auth.{EmbeddingConfig, with_embedding_config}
use neo4j_mcp_canary.Server.Http.{
  Headers, header_get, Request, Decoders, basic_auth, Answer, Handler, reach,
}
use neo4j_mcp_canary.Server.Middleware.{
  Config, authenticate, settle_header, auth_middleware, without_credentials,
  max_unauthenticated_body_bytes,
}
use neo4j_mcp_canary.Server.Middleware.Chain.{
  cors_middleware, embedding_config_middleware, tool_selection_middleware, unauthenticated_methods,
  chain_middleware,
}
use neo4j_mcp_canary.Server.Middleware.Access.{IsCallOf}
use neo4j_mcp_canary.Server.Middleware.Served.{
  ClientAccess, by_bearer_token, by_user_and_password, as_open_call, basic_auth_lem, by_token_lem,
  limited_lem, probe_methods_of_IsCallOf,
}
use neo4j_mcp_canary.Server.Middleware.Instance.Access.{Served, not_replied, is_empty}
use neo4j_mcp_canary.Server.Middleware.Instance.Route.{selecting, IsPreflight}

module _ (decoders : Decoders) (json_rejects_nothing : (m : Str) → decoders.json_method [] ≢ inr m)
    (methods : List Str) (headers : Headers) (r : Request) where
  abbrev authorization : Str
  authorization = header_get r.headers (codes "Authorization")

  abbrev authenticated : Answer
  authenticated =
      authenticate decoders reach methods headers r (cut_prefix authorization (codes "Bearer "))

  access_of_Served : (r' : Request) → Served authenticated r' → ClientAccess decoders methods r r'
  unfolding cut_prefix
  access_of_Served r' h = elim (Bool-cases (has_prefix authorization (codes "Bearer "))) [
    | inl e ↦
        let rest = drop 7 authorization in
        let (n, same) =
          by_token_lem decoders json_rejects_nothing headers r r' (trim_space rest) (rw e at h) in
        subst (ClientAccess decoders methods r) (sym same) (
          by_bearer_token rest (append_of_cut_prefix authorization (codes "Bearer ") rest (rw e)) n)
    | inr e ↦
        elim (basic_auth_lem decoders json_rejects_nothing headers r r' methods
          (basic_auth decoders r) (rw e at h)) [
            | inl (user, pass, b, u, p, same) ↦
                subst (ClientAccess decoders methods r) (sym same)
                  (by_user_and_password user pass e b u p)
            | inr (b, served) ↦
                let (m, fits, call, same) = served in
                subst (ClientAccess decoders methods r) (sym same) (as_open_call m e b fits call)
          ]
  ]

  open_call :
      (ms : List Str) (m : Str)
      → leb (length r.body.content) max_unauthenticated_body_bytes ≡ true
      → IsCallOf decoders ms r m
      → Served (without_credentials decoders reach ms headers r) r
  open_call [] m fits (here, _, _, _, _) = elim here [ ]
  open_call (method ∷ ms) m fits call =
      rw (limited_lem r fits, probe_methods_of_IsCallOf decoders (method ∷ ms) r m call)

  Served-of_access : (r' : Request) → ClientAccess decoders methods r r' → Served authenticated r'
  unfolding cut_prefix
  Served-of_access _ (by_bearer_token rest h n) =
      rw (h, has_prefix-append (codes "Bearer ") rest, is_empty (trim_space rest) n)
  Served-of_access _ (by_user_and_password user pass e b u p) =
      rw (e, b, is_empty user u, is_empty pass p)
  Served-of_access _ (as_open_call m e b fits call) = rw (e, b) (open_call methods m fits call)

-- The request as it comes to the authentication: with the embedding provider of the server, the tool
-- selection of its headers, and the configured header in place of Authorization.
abbrev pub prepared : Config → Option EmbeddingConfig → Request → Request
prepared config none r = settle_header config.auth_header_name (selecting config r)
prepared config (some cfg) r =
    settle_header config.auth_header_name
      (selecting config (record r { context = with_embedding_config r.context cfg }))

module _ (decoders : Decoders) (json_rejects_nothing : (m : Str) → decoders.json_method [] ≢ inr m)
    (config : Config) (embedding : Option EmbeddingConfig) (r r' : Request) where
  abbrev Access : Type 0
  Access = ClientAccess decoders (unauthenticated_methods config) (prepared config embedding r) r'

  abbrev inner : Option EmbeddingConfig → Handler
  inner o = embedding_config_middleware o (
      tool_selection_middleware config.http_tools_header_name
        config.http_tool_categories_header_name
        (auth_middleware decoders reach config.auth_header_name (unauthenticated_methods config)))

  settled_lem :
      (headers : Headers) (q : Request)
      → Served
          (auth_middleware decoders reach config.auth_header_name
            (unauthenticated_methods config)
            headers
            q)
          r'
        ↔ ClientAccess decoders
            (unauthenticated_methods config)
            (settle_header config.auth_header_name q)
            r'
  unfolding auth_middleware
  settled_lem headers q = (
    access_of_Served decoders json_rejects_nothing (unauthenticated_methods config) headers
        (settle_header config.auth_header_name q) r',
    Served-of_access decoders json_rejects_nothing (unauthenticated_methods config) headers
        (settle_header config.auth_header_name q) r',
  )

  inner_lem :
      (o : Option EmbeddingConfig) (headers : Headers)
      → Served (inner o headers r) r'
        ↔ ClientAccess decoders (unauthenticated_methods config) (prepared config o r) r'
  inner_lem none headers = settled_lem headers (selecting config r)
  inner_lem (some cfg) headers =
      settled_lem headers
        (selecting config (record r { context = with_embedding_config r.context cfg }))

  cors_lem :
      (origins : List Str) (headers : Headers)
      → Served
          (cors_middleware origins config.auth_header_name
            (config.http_tools_header_name ∷ config.http_tool_categories_header_name ∷ [])
            (inner embedding)
            headers
            r)
          r'
        ↔ ((¬ IsPreflight origins r) × Access)
  cors_lem [] headers = (
    λ h. (λ p. p.0 refl, (inner_lem embedding headers).0 h),
    λ h. (inner_lem embedding headers).1 h.1,
  )
  cors_lem (o ∷ os) headers = elim (Bool-cases (r.method ==s codes "OPTIONS")) [
    | inl e ↦ (
      λ h. absurd (not_replied (rw e at h)),
      λ h. absurd (h.0 (λ q. absurd (cc), (==s_iff _ _).0 e)),
    )
    | inr e ↦ (
      λ h. (
        λ p. let bad = rw ((==s_iff r.method (codes "OPTIONS")).1 p.1) at e in absurd (cc),
        (inner_lem embedding _).0 (rw e at h),
      ),
      λ h. rw e ((inner_lem embedding _).1 h.1),
    )
  ]

  -- The single-instance chain hands a request to the handler behind it exactly when it is sent to
  -- /mcp or /mcp/, is no preflight request (an OPTIONS request where origins are allowed), and
  -- carries a bearer token that is not blank, or a user and a password that are not empty, or, without
  -- either, is a POST of at most 4096 bytes that calls one of the methods that the configuration lets
  -- through. The request is handed on with the credentials in its context, and else as it came to the
  -- authentication, its body included. It is assumed that no JSON is read from an empty body.
  pub chain_middleware_lem :
      (origins : List Str) (headers : Headers)
      → Served (chain_middleware decoders config embedding origins reach headers r) r' ↔ (
          ((r.path ≡ codes "/mcp") ⊎ (r.path ≡ codes "/mcp/")) × (¬ IsPreflight origins r) × Access)
  unfolding chain_middleware
  chain_middleware_lem origins headers = elim (Bool-cases (r.path ==s codes "/mcp")) [
    | inl e ↦ (
      λ h. let (a, b) = (cors_lem origins headers).0 (rw e at h) in (inl ((==s_iff _ _).0 e), a, b),
      λ h. rw e ((cors_lem origins headers).1 (h.1, h.2)),
    )
    | inr e ↦ elim (Bool-cases (r.path ==s codes "/mcp/")) [
      | inl e' ↦ (
        λ h.
            let (a, b) = (cors_lem origins headers).0 (rw (e, e') at h) in
            (inr ((==s_iff _ _).0 e'), a, b),
        λ h. rw (e, e') ((cors_lem origins headers).1 (h.1, h.2)),
      )
      | inr e' ↦ (
        λ h. absurd (not_replied (rw (e, e') at h)),
        λ h. absurd (elim h.0 [
          | inl p ↦ let bad = rw ((==s_iff r.path (codes "/mcp")).1 p) at e in absurd (cc)
          | inr p ↦ let bad = rw ((==s_iff r.path (codes "/mcp/")).1 p) at e' in absurd (cc)
        ]),
      )
    ]
  ]
