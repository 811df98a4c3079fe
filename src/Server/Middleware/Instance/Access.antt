-- ===== src/Server/Middleware/Instance/Access.antt =====
-- What a request to a route of the multi-instance mode must carry, described without the middleware,
-- and the branches of the middleware.
use neo4j_mcp_canary.Prelude.{
  ℕ, Bool, true, false, not, ◌||◌, List, [], ◌∷◌, ◌++◌, Option, none, some, ◌≡◌, ◌≢◌, ◌↔◌, inl, inr,
  refl, sym, Bool-cases, Memᴰ, not-false, or_split, or_right,
}
use mathlib.Core.List.Memᴰ
use neo4j_mcp_canary.Text.{Str, codes, ◌==s◌, trim_space}
use neo4j_mcp_canary.Text.Laws.{==s_refl, ==s_iff}
use neo4j_mcp_canary.Auth.{EmbeddingConfig, Context, with_basic_auth, with_bearer_token}
use neo4j_mcp_canary.Server.Http.{
  Headers, header_get, Request, Decoders, basic_auth, replied, reached, Answer, reach,
}
use neo4j_mcp_canary.Config.Instances.{InstanceAuth}
use neo4j_mcp_canary.Server.Middleware.Instance.{
  BearerVerifyFunc, matches_any_api_key, instance_context, by_api_key, by_passthrough, by_bearer,
  verify_token, verified,
}

abbrev pub with_context : Request → Context → Request
with_context r ctx = record r { context = ctx }

module _ (decoders : Decoders) (name : Str) (auth : InstanceAuth)
    (embedding : Option EmbeddingConfig) (key_header : Str) (verify : Option BearerVerifyFunc) where
  -- The credentials that an instance asks for, and the context that they give a request.
  pub data InstanceAccess (r : Request) : Context → Type 0 where
    with_key :
        auth.auth_type ≡ codes "basic"
        → header_get r.headers key_header ≢ []
        → Memᴰ (header_get r.headers key_header) auth.api_keys
        → InstanceAccess r (instance_context name embedding r.context)
    with_password :
        (user pass : Str)
        → auth.auth_type ≡ codes "basic_passthrough"
        → basic_auth decoders r ≡ some (user, pass)
        → user ≢ []
        → pass ≢ []
        → InstanceAccess r (with_basic_auth (instance_context name embedding r.context) user pass)
    with_token :
        (verifier : BearerVerifyFunc) (rest : Str)
        → auth.auth_type ≡ codes "bearer"
        → verify ≡ some verifier
        → header_get r.headers (codes "Authorization") ≡ codes "Bearer " ++ rest
        → trim_space rest ≢ []
        → verifier auth (trim_space rest) ≡ none
        → InstanceAccess r
            (with_bearer_token (instance_context name embedding r.context) (trim_space rest))

  -- A request is handed on with such a context, and unchanged beside it.
  abbrev pub Allowed : Request → Request → Type 0
  Allowed r r' = (ctx : Context) × (r' ≡ with_context r ctx) × InstanceAccess r ctx

pub is_empty : (s : Str) → s ≢ [] → (s ==s []) ≡ false
unfolding ◌==s◌
is_empty [] h = absurd (h refl)
is_empty (x ∷ s) h = refl

pub not_empty : (s : Str) → (s ==s []) ≡ false → s ≢ []
not_empty s h e = let bad = rw (e, ==s_refl []) at h in absurd (cc)

pub matches_iff : (s : Str) (ks : List Str) → (matches_any_api_key s ks ≡ true) ↔ Memᴰ s ks
unfolding matches_any_api_key
matches_iff s [] = (λ h. absurd (cc), λ m. elim m [ ])
matches_iff s (k ∷ ks) = (
  λ h. elim (Bool-cases (s ==s k)) [
    | inl e ↦ Memᴰ.head ((==s_iff s k).0 e)
    | inr e ↦ Memᴰ.tail ((matches_iff s ks).0 (rw e at h))
  ],
  λ m. elim (Memᴰ.cases_cons m) [
    | inl e ↦ rw (e, ==s_refl k)
    | inr m' ↦ or_right (s ==s k) ((matches_iff s ks).1 m')
  ],
)

-- The request that is given to the handler, if it is.
abbrev pub Served : Answer → Request → Type 0
Served answer r = answer.outcome ≡ reached r

pub reached_inj : {r s : Request} → reached r ≡ reached s → r ≡ s
reached_inj h = cc

pub not_replied : {n : ℕ} {t : Str} {r : Request} → replied n t ≡ reached r → ⊥
not_replied h = absurd (cc)

module _ (decoders : Decoders) (auth : InstanceAuth) (key_header meta : Str)
    (verify : Option BearerVerifyFunc) (ctx : Context) (headers : Headers) (r : Request) where
  pub by_api_key_lem :
      (r' : Request)
      → Served (by_api_key decoders reach key_header auth ctx headers r) r'
      → (header_get r.headers key_header ≢ [])
        × Memᴰ (header_get r.headers key_header) auth.api_keys
        × (r' ≡ with_context r ctx)
  by_api_key_lem r' h =
      let presented = header_get r.headers key_header in
      elim (Bool-cases (presented ==s [] || not (matches_any_api_key presented auth.api_keys))) [
        | inl e ↦ absurd (not_replied (rw e at h))
        | inr e ↦ (
          not_empty presented (or_split _ _ e).0,
          (matches_iff presented auth.api_keys).0 (not-false _ (or_split _ _ e).1),
          sym (reached_inj (rw e at h)),
        )
      ]

  pub by_passthrough_lem :
      (o : Option (Str × Str)) (r' : Request)
      → Served (by_passthrough decoders reach ctx headers r o) r'
      → (user : Str) × (pass : Str) × (o ≡ some (user, pass))
        × (user ≢ [])
        × (pass ≢ [])
        × (r' ≡ with_context r (with_basic_auth ctx user pass))
  by_passthrough_lem none r' h = absurd (not_replied h)
  by_passthrough_lem (some (user, pass)) r' h = elim (Bool-cases (user ==s [] || pass ==s [])) [
    | inl e ↦ absurd (not_replied (rw e at h))
    | inr e ↦ (
      user,
      pass,
      refl,
      not_empty user (or_split _ _ e).0,
      not_empty pass (or_split _ _ e).1,
      sym (reached_inj (rw e at h)),
    )
  ]

  verified_lem :
      (token : Str) (o : Option Str) (r' : Request)
      → Served (verified decoders reach meta ctx headers r token o) r'
      → (o ≡ none) × (r' ≡ with_context r (with_bearer_token ctx token))
  verified_lem token none r' h = (refl, sym (reached_inj h))
  verified_lem token (some e) r' h = absurd (not_replied h)

  pub verify_token_lem :
      (v : Option BearerVerifyFunc) (token : Str) (r' : Request)
      → Served (verify_token decoders reach v auth meta ctx headers r token) r'
      → (verifier : BearerVerifyFunc) × (v ≡ some verifier)
        × (verifier auth token ≡ none)
        × (r' ≡ with_context r (with_bearer_token ctx token))
  verify_token_lem none token r' h = absurd (not_replied h)
  verify_token_lem (some verifier) token r' h =
      let (ok, same) = verified_lem token (verifier auth token) r' h in (verifier, refl, ok, same)

  pub by_bearer_lem :
      (cutting : Str × Bool) (r' : Request)
      → Served (by_bearer decoders reach verify auth meta ctx headers r cutting) r'
      → (verifier : BearerVerifyFunc) × (cutting.1 ≡ true)
        × (trim_space cutting.0 ≢ [])
        × (verify ≡ some verifier)
        × (verifier auth (trim_space cutting.0) ≡ none)
        × (r' ≡ with_context r (with_bearer_token ctx (trim_space cutting.0)))
  by_bearer_lem (rest, found) r' h = elim (Bool-cases (not found || trim_space rest ==s [])) [
    | inl e ↦ absurd (not_replied (rw e at h))
    | inr e ↦
        let (verifier, set, ok, same) = verify_token_lem verify (trim_space rest) r' (rw e at h) in
        (
          verifier,
          not-false found (or_split _ _ e).0,
          not_empty (trim_space rest) (or_split _ _ e).1,
          set,
          ok,
          same,
        )
  ]
