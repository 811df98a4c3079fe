-- ===== src/Server/Middleware/Instance/Exact.antt =====
-- The middleware of a route against the description of the credentials that its instance asks for.
use neo4j_mcp_canary.Text.Search.{cut_prefix}
use neo4j_mcp_canary.Prelude.{[], Option, ◌≡◌, ◌↔◌, inl, inr, refl, sym, Bool-cases, ap, ◌∙◌}
use neo4j_mcp_canary.Text.{Str, codes, ◌==s◌, trim_space}
use neo4j_mcp_canary.Text.Laws.{==s_iff}
use neo4j_mcp_canary.Text.Cut.{cut_prefix_append, append_of_cut_prefix}
use neo4j_mcp_canary.Auth.{EmbeddingConfig, Context, with_basic_auth, with_bearer_token}
use neo4j_mcp_canary.Server.Http.{
  Headers, header_get, Request, Decoders, basic_auth, reached, Answer, reach,
}
use neo4j_mcp_canary.Config.Instances.{InstanceAuth}
use neo4j_mcp_canary.Server.Middleware.Instance.{
  BearerVerifyFunc, instance_context, by_api_key, by_passthrough, by_type, by_bearer, metadata_url,
  instance_auth_middleware,
}
use neo4j_mcp_canary.Server.Middleware.Instance.Access.{
  InstanceAccess, with_key, with_password, with_token, Allowed, Served, with_context,
  by_api_key_lem, by_passthrough_lem, by_bearer_lem, not_replied, is_empty, matches_iff,
}

module _ (decoders : Decoders) (name : Str) (auth : InstanceAuth)
    (embedding : Option EmbeddingConfig) (key_header scheme : Str)
    (verify : Option BearerVerifyFunc) (headers : Headers) (r : Request) where
  -- The answer as a function of the type of authentication.
  answer : Str → Answer
  unfolding instance_auth_middleware
  answer t =
      by_type decoders reach t verify auth key_header (metadata_url scheme r name)
        (instance_context name embedding r.context) headers r

  Served-of_InstanceAccess :
      (ctx : Context)
      → InstanceAccess decoders name auth embedding key_header verify r ctx
      → Served
          (instance_auth_middleware decoders reach name auth embedding key_header scheme verify
            headers r)
          (with_context r ctx)
  unfolding instance_auth_middleware ◌==s◌ answer
  Served-of_InstanceAccess _ (with_key t n m) =
      ap (λ u. (answer u).outcome) t
      ∙ (rw (is_empty _ n, (matches_iff (header_get r.headers key_header) auth.api_keys).1 m))
  Served-of_InstanceAccess _ (with_password user pass t b u p) =
      ap (λ u. (answer u).outcome) t ∙ rw (b, is_empty user u, is_empty pass p)
  Served-of_InstanceAccess _ (with_token verifier rest t v h n a) =
      ap (λ u. (answer u).outcome) t
      ∙ rw (h, cut_prefix_append (codes "Bearer ") rest, is_empty _ n, v, a)

  basic_case :
      (r' : Request) (ctx : Context)
      → auth.auth_type ≡ codes "basic"
      → ctx ≡ instance_context name embedding r.context
      → Served (by_api_key decoders reach key_header auth ctx headers r) r'
      → Allowed decoders name auth embedding key_header verify r r'
  basic_case r' ctx t c h =
      let (n, m, same) = by_api_key_lem decoders auth key_header [] verify ctx headers r r' h in
      (_, same ∙ ap (with_context r) c, with_key t n m)

  passthrough_case :
      (r' : Request) (ctx : Context)
      → auth.auth_type ≡ codes "basic_passthrough"
      → ctx ≡ instance_context name embedding r.context
      → Served (by_passthrough decoders reach ctx headers r (basic_auth decoders r)) r'
      → Allowed decoders name auth embedding key_header verify r r'
  passthrough_case r' ctx t c h =
      let (user, pass, b, u, p, same) =
        by_passthrough_lem decoders auth [] [] verify ctx headers r (basic_auth decoders r) r' h in
      (
        _,
        same ∙ ap (λ c'. with_context r (with_basic_auth c' user pass)) c,
        with_password user pass t b u p,
      )

  bearer_case :
      (r' : Request) (ctx : Context) (meta : Str)
      → auth.auth_type ≡ codes "bearer"
      → ctx ≡ instance_context name embedding r.context
      → Served
          (by_bearer decoders reach verify auth meta ctx headers r
            (cut_prefix (header_get r.headers (codes "Authorization")) (codes "Bearer ")))
          r'
      → Allowed decoders name auth embedding key_header verify r r'
  bearer_case r' ctx meta t c h =
      let cutting = cut_prefix (header_get r.headers (codes "Authorization")) (codes "Bearer ") in
      let (verifier, found, n, v, ok, same) =
        by_bearer_lem decoders auth [] meta verify ctx headers r cutting r' h in
      (
        _,
        same ∙ ap (λ c'. with_context r (with_bearer_token c' (trim_space cutting.0))) c,
        with_token verifier cutting.0 t v
            (append_of_cut_prefix (header_get r.headers (codes "Authorization")) (codes "Bearer ")
              cutting.0 (ap (λ b. (cutting.0, b)) found))
            n ok,
      )

  InstanceAccess_of_Served :
      (r' : Request)
      → Served
          (instance_auth_middleware decoders reach name auth embedding key_header scheme verify
            headers r)
          r'
      → Allowed decoders name auth embedding key_header verify r r'
  unfolding instance_auth_middleware
  InstanceAccess_of_Served r' h = elim (Bool-cases (auth.auth_type ==s codes "basic")) [
    | inl e ↦ basic_case r' _ ((==s_iff _ _).0 e) refl (rw e at h)
    | inr e ↦ elim (Bool-cases (auth.auth_type ==s codes "basic_passthrough")) [
      | inl e' ↦ passthrough_case r' _ ((==s_iff _ _).0 e') refl (rw (e, e') at h)
      | inr e' ↦ elim (Bool-cases (auth.auth_type ==s codes "bearer")) [
        | inl e'' ↦
            bearer_case r' _ (metadata_url scheme r name) ((==s_iff _ _).0 e'') refl
              (rw (e, e', e'') at h)
        | inr e'' ↦ absurd (not_replied (rw (e, e', e'') at h))
      ]
    ]
  ]

  -- The middleware lets a request through exactly when the instance's credentials are there.
  pub instance_auth_lem :
      (r' : Request)
      → Served
          (instance_auth_middleware decoders reach name auth embedding key_header scheme verify
            headers r)
          r'
        ↔ Allowed decoders name auth embedding key_header verify r r'
  instance_auth_lem r' = (
    InstanceAccess_of_Served r',
    λ (ctx, same, access). Served-of_InstanceAccess ctx access ∙ ap reached (sym same),
  )
