-- ===== src/Server/Middleware/Served.antt =====
-- The single-instance chain: what its authentication does with the requests that the description
-- admits, and with the others.
use neo4j_mcp_canary.Prelude.{
  true, false, List, [], ◌∷◌, ◌++◌, none, some, ◌≡◌, ◌≢◌, inl, inr, Bool-cases, leb, length,
  ltb_int, pos, ◌||◌, Option, ◌⊎◌, refl, sym, ◌∙◌, or_split,
}
use mathlib.Core.List.Memᴰ
use mathlib.Core.Path.{subst}
use neo4j_mcp_canary.Text.{Str, codes, ◌==s◌, trim_space, has_prefix}
use neo4j_mcp_canary.Text.Laws.{==s_iff, ==s_refl}
use neo4j_mcp_canary.Auth.{with_basic_auth, with_bearer_token}
use neo4j_mcp_canary.Server.Http.{
  header_get, Body, read_all, Request, Decoders, basic_auth, max_bytes_reader, Headers, reach,
}
use neo4j_mcp_canary.Server.Middleware.{
  is_unauthenticated_method_request, matched, probe_methods, max_unauthenticated_body_bytes,
  without_credentials, by_basic_auth, by_token, after_probes, with_body, Probe, too_large,
  unmatched,
}
use neo4j_mcp_canary.Server.Middleware.Access.{IsCallOf, restored, probe_methods_lem}
use neo4j_mcp_canary.Server.Middleware.Instance.Access.{
  with_context, Served, not_replied, not_empty, reached_inj,
}

module _ (decoders : Decoders) (methods : List Str) where
  -- The credentials that the chain asks for, or the calls that need none, and the request that each
  -- of them hands on.
  pub data ClientAccess (r : Request) : Request → Type 0 where
    by_bearer_token :
        (rest : Str)
        → header_get r.headers (codes "Authorization") ≡ codes "Bearer " ++ rest
        → trim_space rest ≢ []
        → ClientAccess r (with_context r (with_bearer_token r.context (trim_space rest)))
    by_user_and_password :
        (user pass : Str)
        → has_prefix (header_get r.headers (codes "Authorization")) (codes "Bearer ") ≡ false
        → basic_auth decoders r ≡ some (user, pass)
        → user ≢ []
        → pass ≢ []
        → ClientAccess r (with_context r (with_basic_auth r.context user pass))
    as_open_call :
        (method : Str)
        → has_prefix (header_get r.headers (codes "Authorization")) (codes "Bearer ") ≡ false
        → basic_auth decoders r ≡ none
        → leb (length r.body.content) max_unauthenticated_body_bytes ≡ true
        → IsCallOf decoders methods r method
        → ClientAccess r r

read_all_ok : (body : Body) → body.failure ≡ none → read_all body ≡ inr body.content
read_all_ok body h = rw h

module _ (decoders : Decoders) where
  -- The probe for a method in a request that is a call of a method.
  probe_of_call :
      (r : Request) (m method : Str)
      → (r.method ==s codes "POST") ≡ true
      → ltb_int (pos max_unauthenticated_body_bytes) r.content_length ≡ false
      → r.body.failure ≡ none
      → decoders.json_method r.body.content ≡ inr m
      → is_unauthenticated_method_request decoders r method ≡ (inr (m ==s method), r)
  unfolding is_unauthenticated_method_request
  probe_of_call r m method post small whole json =
      rw (post, small, read_all_ok r.body whole, json, restored r whole)

  -- The loop finds a call of one of its methods.
  pub probe_methods_of_IsCallOf :
      (methods : List Str) (r : Request) (m : Str)
      → IsCallOf decoders methods r m
      → probe_methods decoders methods r ≡ matched m r
  unfolding probe_methods
  probe_methods_of_IsCallOf [] r m (here, _, _, _, _) = elim here [ ]
  probe_methods_of_IsCallOf (method ∷ methods) r m (here, post, small, whole, json) =
      let probe = probe_of_call r m method ((==s_iff _ _).1 post) small whole json in
      elim (Bool-cases (m ==s method)) [
        | inl e ↦ rw (probe, e, (==s_iff m method).0 e)
        | inr e ↦
            rw (probe, e)
              (elim (Memᴰ.cases_cons here) [
                | inl same ↦ absurd (let bad = rw (same, ==s_refl method) at e in cc)
                | inr there ↦
                    probe_methods_of_IsCallOf methods r m (there, post, small, whole, json)
              ])
      ]

abbrev pub limited : Request → Request
limited r = with_body r (max_bytes_reader r.body max_unauthenticated_body_bytes)

pub limited_lem :
    (r : Request)
    → leb (length r.body.content) max_unauthenticated_body_bytes ≡ true
    → limited r ≡ r
unfolding max_bytes_reader
limited_lem r h = rw h

-- A body that can be read to its end within the limit is no longer than the limit.
within_limit :
    (r : Request)
    → (limited r).body.failure ≡ none
    → leb (length r.body.content) max_unauthenticated_body_bytes ≡ true
unfolding max_bytes_reader
within_limit r h = elim (Bool-cases (leb (length r.body.content) max_unauthenticated_body_bytes)) [
  | inl e ↦ e
  | inr e ↦ absurd (let h' = rw e at h in cc)
]

module _ (decoders : Decoders) (json_rejects_nothing : (m : Str) → decoders.json_method [] ≢ inr m)
    (headers : Headers) (r r' : Request) where
  -- What serving a request without credentials means.
  abbrev pub Open : List Str → Type 0
  Open methods =
      (m : Str) × (leb (length r.body.content) max_unauthenticated_body_bytes ≡ true)
      × IsCallOf decoders methods r m
      × (r' ≡ r)

  probes_lem :
      (methods : List Str) (p : Probe)
      → probe_methods decoders methods (limited r) ≡ p
      → Served (after_probes decoders reach headers p) r'
      → Open methods
  probes_lem methods (matched m s) e h =
      let (call, same) =
        probe_methods_lem decoders json_rejects_nothing methods (limited r) m s e in
      let (_, _, _, whole, _) = call in
      let fits = within_limit r whole in
      let back = limited_lem r fits in
      (
        m,
        fits,
        subst (λ q. IsCallOf decoders methods q m) back call,
        sym (reached_inj h) ∙ same ∙ back,
      )
  probes_lem methods too_large e h = absurd (not_replied h)
  probes_lem methods unmatched e h = absurd (not_replied h)

  without_credentials_lem :
      (methods : List Str)
      → Served (without_credentials decoders reach methods headers r) r'
      → Open methods
  without_credentials_lem [] h = absurd (not_replied h)
  without_credentials_lem (method ∷ methods) h = probes_lem (method ∷ methods) _ refl h

  pub basic_auth_lem :
      (methods : List Str) (o : Option (Str × Str))
      → Served (by_basic_auth decoders reach methods headers r o) r'
      → ((user : Str) × (pass : Str) × (o ≡ some (user, pass))
          × (user ≢ [])
          × (pass ≢ [])
          × (r' ≡ with_context r (with_basic_auth r.context user pass)))
        ⊎ ((o ≡ none) × Open methods)
  basic_auth_lem methods none h =
      let served : Open methods = without_credentials_lem methods h in inr (refl, served)
  basic_auth_lem methods (some (user, pass)) h = elim (Bool-cases (user ==s [] || pass ==s [])) [
    | inl e ↦ absurd (not_replied (rw e at h))
    | inr e ↦ inl (
      user,
      pass,
      refl,
      not_empty user (or_split _ _ e).0,
      not_empty pass (or_split _ _ e).1,
      sym (reached_inj (rw e at h)),
    )
  ]

  pub by_token_lem :
      (token : Str)
      → Served (by_token decoders reach headers r token) r'
      → (token ≢ []) × (r' ≡ with_context r (with_bearer_token r.context token))
  by_token_lem token h = elim (Bool-cases (token ==s [])) [
    | inl e ↦ absurd (not_replied (rw e at h))
    | inr e ↦ (not_empty token e, sym (reached_inj (rw e at h)))
  ]
