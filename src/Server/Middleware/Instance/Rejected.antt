-- ===== src/Server/Middleware/Instance/Rejected.antt =====
-- The statuses with which a route of the multi-instance mode turns a request away.
use neo4j_mcp_canary.Prelude.{
  ℕ, Bool, true, false, List, [], ◌∷◌, ◌++◌, Option, none, some, ◌≡◌, ◌≢◌, ◌⊎◌, inl, inr, refl, sym,
  ap, ◌∙◌, Bool-cases, Memᴰ, some_inj, drop,
}
use neo4j_mcp_canary.Text.{Str, codes, ◌==s◌, trim_space}
use neo4j_mcp_canary.Text.Laws.{==s_iff, ==s_refl}
use neo4j_mcp_canary.Text.Search.{cut_prefix}
use neo4j_mcp_canary.Text.Cut.{append_of_cut_prefix, cut_prefix_append}
use neo4j_mcp_canary.Auth.{Context}
use neo4j_mcp_canary.Server.Http.{
  Headers, header_get, Request, Decoders, basic_auth, replied, reached, Answer, reach,
}
use neo4j_mcp_canary.Server.Middleware.{Config}
use neo4j_mcp_canary.Config.Instances.{InstanceAuth, NeoInstance}
use neo4j_mcp_canary.Server.Middleware.Instance.{
  BearerVerifyFunc, matches_any_api_key, metadata_url, instance_context, instance_auth_middleware,
  by_api_key, by_passthrough, by_bearer, by_type, verify_token, verified, scheme,
  chain_middleware_for_instance,
}
use neo4j_mcp_canary.Server.Middleware.Instance.Access.{not_empty, matches_iff}
use neo4j_mcp_canary.Server.Middleware.Instance.Route.{selecting, IsPreflight}

-- The answer is a rejection with this status.
abbrev Rejected : Answer → ℕ → Type 0
Rejected answer status = (text : Str) × (answer.outcome ≡ replied status text)

-- A bearer token is presented to an instance whose tokens nobody can verify.
abbrev pub IsUnverifiable : InstanceAuth → Option BearerVerifyFunc → Headers → Type 0
IsUnverifiable auth verify headers =
    (auth.auth_type ≡ codes "bearer")
    × (verify ≡ none)
    × (rest : Str) × (header_get headers (codes "Authorization") ≡ codes "Bearer " ++ rest)
    × (trim_space rest ≢ [])

-- The type of an instance's authentication is none that the middleware knows.
abbrev pub IsUnknown : InstanceAuth → Type 0
IsUnknown auth =
    (auth.auth_type ≢ codes "basic")
    × (auth.auth_type ≢ codes "basic_passthrough")
    × (auth.auth_type ≢ codes "bearer")

-- The client lacks the credentials that an instance of a known type asks for.
pub data Denied (decoders : Decoders) (auth : InstanceAuth) (key_header : Str)
    (verify : Option BearerVerifyFunc) (r : Request) : Type 0 where
  no_key :
      auth.auth_type ≡ codes "basic"
      → ¬ (
          (header_get r.headers key_header ≢ [])
          × Memᴰ (header_get r.headers key_header) auth.api_keys)
      → Denied decoders auth key_header verify r
  no_password :
      auth.auth_type ≡ codes "basic_passthrough"
      → ((user pass : Str) → basic_auth decoders r ≡ some (user, pass) → (user ≡ []) ⊎ (pass ≡ []))
      → Denied decoders auth key_header verify r
  no_token :
      auth.auth_type ≡ codes "bearer"
      → ((rest : Str)
          → header_get r.headers (codes "Authorization") ≡ codes "Bearer " ++ rest
          → trim_space rest ≡ [])
      → Denied decoders auth key_header verify r
  bad_token :
      (verifier : BearerVerifyFunc) (rest e : Str)
      → auth.auth_type ≡ codes "bearer"
      → verify ≡ some verifier
      → header_get r.headers (codes "Authorization") ≡ codes "Bearer " ++ rest
      → trim_space rest ≢ []
      → verifier auth (trim_space rest) ≡ some e
      → Denied decoders auth key_header verify r

replied_inj : {m n : ℕ} {t u : Str} → replied m t ≡ replied n u → n ≡ m
replied_inj h = cc

not_reached : {n : ℕ} {t : Str} {r : Request} → reached r ≡ replied n t → ⊥
not_reached h = absurd (cc)

differs : (s t : Str) → (s ==s t) ≡ false → s ≢ t
differs s t e h = let bad = rw (h, ==s_refl t) at e in absurd (cc)

append_left : (p s t : Str) → p ++ s ≡ p ++ t → s ≡ t
append_left [] s t h = h
append_left (c ∷ p) s t h = append_left p s t (ap (drop 1) h)

-- What stands behind a prefix is determined.
same_rest :
    (sent s t : Str)
    → sent ≡ codes "Bearer " ++ s
    → sent ≡ codes "Bearer " ++ t
    → trim_space s ≡ trim_space t
same_rest sent s t p q = ap trim_space (append_left (codes "Bearer ") s t (sym p ∙ q))

empty_of : (s : Str) → (s ==s []) ≡ true → s ≡ []
empty_of s e = (==s_iff s []).0 e

module _ (decoders : Decoders) (auth : InstanceAuth) (key_header meta : Str)
    (verify : Option BearerVerifyFunc) (ctx : Context) (headers : Headers) (r : Request)
    (status : ℕ) where
  -- The answer is a 401, and the client lacks its credentials.
  abbrev DeniedWith401 : Type 0
  DeniedWith401 = (status ≡ 401) × Denied decoders auth key_header verify r

  by_api_key-Rejected :
      auth.auth_type ≡ codes "basic"
      → Rejected (by_api_key decoders reach key_header auth ctx headers r) status
      → DeniedWith401
  by_api_key-Rejected t (text, h) =
      let presented = header_get r.headers key_header in
      elim (Bool-cases (presented ==s [])) [
        | inl e ↦ (replied_inj (rw e at h), no_key t (λ (full, m). full (empty_of presented e)))
        | inr e ↦ elim (Bool-cases (matches_any_api_key presented auth.api_keys)) [
          | inl e' ↦ absurd (not_reached (rw (e, e') at h))
          | inr e' ↦ (
            replied_inj (rw (e, e') at h),
            no_key t
                (λ (full, m). let bad = (matches_iff presented auth.api_keys).1 m in absurd (cc)),
          )
        ]
      ]

  by_passthrough-Rejected :
      auth.auth_type ≡ codes "basic_passthrough"
      → (o : Option (Str × Str)) → basic_auth decoders r ≡ o
      → Rejected (by_passthrough decoders reach ctx headers r o) status
      → DeniedWith401
  by_passthrough-Rejected t none given (text, h) =
      (replied_inj h, no_password t (λ u p e. absurd (let bad = sym given ∙ e in cc)))
  by_passthrough-Rejected t (some (user, pass)) given (text, h) = elim (Bool-cases (user ==s [])) [
    | inl e ↦ (
      replied_inj (rw e at h),
      no_password t
          (λ u p q. inl (ap (λ (x : Str × Str). x.0) (some_inj (sym q ∙ given)) ∙ empty_of user e)),
    )
    | inr e ↦ elim (Bool-cases (pass ==s [])) [
      | inl e' ↦ (
        replied_inj (rw (e, e') at h),
        no_password t (λ u p q.
            inr (ap (λ (x : Str × Str). x.1) (some_inj (sym q ∙ given)) ∙ empty_of pass e')),
      )
      | inr e' ↦ absurd (not_reached (rw (e, e') at h))
    ]
  ]

  -- What a rejection by the middleware of an instance means.
  abbrev Reason : Type 0
  Reason =
      DeniedWith401
      ⊎ ((status ≡ 501) × IsUnverifiable auth verify r.headers)
      ⊎ ((status ≡ 500) × IsUnknown auth)

  verify_token-Rejected :
      (v : Option BearerVerifyFunc) (rest : Str)
      → auth.auth_type ≡ codes "bearer"
      → verify ≡ v
      → header_get r.headers (codes "Authorization") ≡ codes "Bearer " ++ rest
      → trim_space rest ≢ []
      → Rejected (verify_token decoders reach v auth meta ctx headers r (trim_space rest)) status
      → Reason
  verify_token-Rejected none rest t set given full (text, h) =
      let reason : IsUnverifiable auth verify r.headers = (t, set, rest, given, full) in
      inr (inl (replied_inj h, reason))
  verify_token-Rejected (some verifier) rest t set given full (text, h) =
      verdict (verifier auth (trim_space rest)) refl h
    where
      verdict :
          (o : Option Str)
          → verifier auth (trim_space rest) ≡ o
          → (verified decoders reach meta ctx headers r (trim_space rest) o).outcome
            ≡ replied status text
          → Reason
      verdict none said h' = absurd (not_reached h')
      verdict (some e) said h' =
          inl (replied_inj h', bad_token verifier rest e t set given full said)

  bearer_reason :
      auth.auth_type ≡ codes "bearer"
      → Rejected
          (by_bearer decoders reach verify auth meta ctx headers r
            (cut_prefix (header_get r.headers (codes "Authorization")) (codes "Bearer ")))
          status
      → Reason
  bearer_reason t (text, h) =
      let sent = header_get r.headers (codes "Authorization") in
      let cutting = cut_prefix sent (codes "Bearer ") in
      elim (Bool-cases cutting.1) [
        | inl found ↦
            let given =
              append_of_cut_prefix sent (codes "Bearer ") cutting.0
                (ap (λ b. (cutting.0, b)) found) in
            elim (Bool-cases (trim_space cutting.0 ==s [])) [
              | inl e ↦ inl (
                replied_inj (rw (found, e) at h),
                no_token t (λ rest q. same_rest sent rest cutting.0 q given ∙ empty_of _ e),
              )
              | inr e ↦
                  verify_token-Rejected verify cutting.0 t refl given
                    (not_empty (trim_space cutting.0) e) (text, rw (found, e) at h)
            ]
        | inr found ↦ inl (
          replied_inj (rw found at h),
          no_token t (λ rest q. absurd (
              let bad =
                ap (λ (x : Str × Bool). x.1)
                  (ap (λ x. cut_prefix x (codes "Bearer ")) q
                    ∙ cut_prefix_append (codes "Bearer ") rest) in
              cc)),
        )
      ]

  by_type-Rejected :
      Rejected
        (by_type decoders reach auth.auth_type verify auth key_header meta ctx headers r)
        status
      → Reason
  by_type-Rejected (text, h) = elim (Bool-cases (auth.auth_type ==s codes "basic")) [
    | inl e ↦ inl (by_api_key-Rejected ((==s_iff _ _).0 e) (text, rw e at h))
    | inr e ↦ elim (Bool-cases (auth.auth_type ==s codes "basic_passthrough")) [
      | inl e' ↦ inl (
          by_passthrough-Rejected ((==s_iff _ _).0 e') (basic_auth decoders r) refl
            (text, rw (e, e') at h))
      | inr e' ↦ elim (Bool-cases (auth.auth_type ==s codes "bearer")) [
        | inl e'' ↦ bearer_reason ((==s_iff _ _).0 e'') (text, rw (e, e', e'') at h)
        | inr e'' ↦
            let reason : IsUnknown auth = (differs _ _ e, differs _ _ e', differs _ _ e'') in
            inr (inr (replied_inj (rw (e, e', e'') at h), reason))
      ]
    ]
  ]

module _ (decoders : Decoders) (config : Config) (verify : Option BearerVerifyFunc)
    (inst : NeoInstance) (r : Request) (status : ℕ) (text : Str) where
  -- Why the middleware of the instance turned the request away.
  abbrev pub InstanceReason : Type 0
  InstanceReason =
      ((status ≡ 401)
        × Denied decoders inst.auth config.http_api_key_header_name verify (selecting config r))
      ⊎ ((status ≡ 501) × IsUnverifiable inst.auth verify r.headers)
      ⊎ ((status ≡ 500) × IsUnknown inst.auth)

  inner_reason :
      (headers : Headers)
      → (instance_auth_middleware decoders reach inst.name inst.auth inst.embedding
          config.http_api_key_header_name
          (scheme config)
          verify
          headers
          (selecting config r)).outcome
        ≡ replied status text
      → InstanceReason
  unfolding instance_auth_middleware
  inner_reason headers h =
      by_type-Rejected decoders inst.auth config.http_api_key_header_name
        (metadata_url (scheme config) (selecting config r) inst.name) verify
        (instance_context inst.name inst.embedding (selecting config r).context) headers
        (selecting config r) status (text, h)

  -- A request that a route answers itself is a preflight request and answered with 204, or it is none
  -- and answered with 401, because it lacks the credentials that an instance of a known type asks for
  -- (a key of the instance; a user and a password that are not empty; a bearer token that is not blank
  -- and that the verifier, if there is one, accepts), with 501, because it brings a token to a bearer
  -- instance while there is no verifier, or with 500, because the type is unknown.
  pub chain_middleware_for_instance_rejected :
      (origins : List Str) (headers : Headers)
      → (chain_middleware_for_instance decoders config verify inst origins reach headers r).outcome
        ≡ replied status text
      → ((status ≡ 204) × IsPreflight origins r) ⊎ ((¬ IsPreflight origins r) × InstanceReason)
  unfolding chain_middleware_for_instance
  chain_middleware_for_instance_rejected [] headers h =
      inr (λ (allowed, m). allowed refl, inner_reason headers h)
  chain_middleware_for_instance_rejected (o ∷ os) headers h =
      elim (Bool-cases (r.method ==s codes "OPTIONS")) [
        | inl e ↦
            let preflight : IsPreflight (o ∷ os) r = ((λ q. absurd (cc)), (==s_iff _ _).0 e) in
            inl (replied_inj (rw e at h), preflight)
        | inr e ↦
            inr (λ (allowed, m). differs r.method (codes "OPTIONS") e m, inner_reason _ (rw e at h))
      ]
