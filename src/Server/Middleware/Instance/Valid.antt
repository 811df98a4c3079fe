-- ===== src/Server/Middleware/Instance/Valid.antt =====
-- The routes of validated instances.
use neo4j_mcp_canary.Prelude.{
  ℕ, suc, Bool, true, false, not, List, [], ◌∷◌, Option, none, some, ◌≡◌, ◌⊎◌, inl, inr, refl, sym,
  ap, ◌∙◌, Bool-cases, Memᴰ, if◌then◌else◌, not-false,
}
use mathlib.Core.List.Memᴰ
use neo4j_mcp_canary.Text.{Str, codes, ◌==s◌, contains}
use neo4j_mcp_canary.Text.Laws.{==s_iff}
use neo4j_mcp_canary.Config.Instances.{
  InstanceAuth, NeoInstance, InstanceError, or_else, validate_instance_auth, validate_instance,
  validate_from, validate_instances, valid_instance_auth_types, matches_instance_name,
  reserved_instance_names, validate_optional_embedding,
}
use neo4j_mcp_canary.Server.Http.{Headers, Request, Decoders, replied, reach}
use neo4j_mcp_canary.Server.Middleware.{Config}
use neo4j_mcp_canary.Server.Middleware.Instance.{BearerVerifyFunc, chain_middleware_for_instance}
use neo4j_mcp_canary.Server.Middleware.Instance.Route.{selecting, IsPreflight}
use neo4j_mcp_canary.Server.Middleware.Instance.Rejected.{
  Denied, IsUnverifiable, IsUnknown, chain_middleware_for_instance_rejected,
}

or_else-none : (a b : Option InstanceError) → or_else a b ≡ none → (a ≡ none) × (b ≡ none)
or_else-none none b h = (refl, h)
or_else-none (some e) b h = absurd (cc)

if_none :
    (b : Bool) (e : InstanceError) (o : Option InstanceError)
    → (if b then some e else o) ≡ none
    → (b ≡ false) × (o ≡ none)
if_none true e o h = absurd (cc)
if_none false e o h = (refl, h)

known_types :
    (t : Str)
    → contains valid_instance_auth_types t ≡ true
    → (t ≡ codes "basic") ⊎ (t ≡ codes "basic_passthrough") ⊎ (t ≡ codes "bearer")
unfolding contains
known_types t h = elim (Bool-cases (codes "basic" ==s t)) [
  | inl e ↦ inl (sym ((==s_iff _ _).0 e))
  | inr e ↦ elim (Bool-cases (codes "basic_passthrough" ==s t)) [
    | inl e' ↦ inr (inl (sym ((==s_iff _ _).0 e')))
    | inr e' ↦ elim (Bool-cases (codes "bearer" ==s t)) [
      | inl e'' ↦ inr (inr (sym ((==s_iff _ _).0 e'')))
      | inr e'' ↦ absurd (let bad = rw (e, e', e'') at h in cc)
    ]
  ]
]

not-IsUnknown : (auth : InstanceAuth) → validate_instance_auth auth ≡ none → ¬ IsUnknown auth
unfolding validate_instance_auth
not-IsUnknown auth h (a, b, c) =
    let (known, _) = if_none (not (contains valid_instance_auth_types auth.auth_type)) _ _ h in
    elim (known_types auth.auth_type (not-false _ known)) [
      | inl e ↦ a e
      | inr (inl e) ↦ b e
      | inr (inr e) ↦ c e
    ]

auth_of_instance :
    (i : ℕ) (seen : List Str) (inst : NeoInstance)
    → validate_instance i seen inst ≡ none
    → validate_instance_auth inst.auth ≡ none
unfolding validate_instance
auth_of_instance i seen inst h =
    let (_, h1) = if_none (inst.name ==s []) _ _ h in
    let (_, h2) = if_none (not (matches_instance_name inst.name)) _ _ h1 in
    let (_, h3) = if_none (contains reserved_instance_names inst.name) _ _ h2 in
    let (_, h4) = if_none (contains seen inst.name) _ _ h3 in
    let (_, h5) = if_none (inst.uri ==s []) _ _ h4 in
    (or_else-none _ (validate_optional_embedding inst.embedding) h5).0

auth_of_member :
    (i : ℕ) (seen : List Str) (is : List NeoInstance) (inst : NeoInstance)
    → validate_from i seen is ≡ none
    → Memᴰ inst is
    → validate_instance_auth inst.auth ≡ none
unfolding validate_from
auth_of_member i seen [] inst h m = elim m [ ]
auth_of_member i seen (x ∷ is) inst h m =
    let (first, rest) = or_else-none (validate_instance i seen x) _ h in
    elim (Memᴰ.cases_cons m) [
      | inl e ↦
          ap (λ (y : NeoInstance). validate_instance_auth y.auth) e
          ∙ auth_of_instance i seen x first
      | inr m' ↦ auth_of_member (suc i) (x.name ∷ seen) is inst rest m'
    ]

auth_of_validated :
    (is : List NeoInstance) (inst : NeoInstance)
    → validate_instances is ≡ none
    → Memᴰ inst is
    → validate_instance_auth inst.auth ≡ none
unfolding validate_instances
auth_of_validated [] inst h m = elim m [ ]
auth_of_validated (x ∷ is) inst h m = auth_of_member 0 [] (x ∷ is) inst h m

-- The route of an instance from a validated list answers a request itself only with 204, if it is a
-- preflight request, with 401, if it is none and lacks the credentials that the instance asks for, or
-- with 501, if it is none and brings a token to a bearer instance while there is no verifier: never
-- with 500.
pub validated_route :
    (decoders : Decoders) (config : Config) (verify : Option BearerVerifyFunc)
    (is : List NeoInstance) (inst : NeoInstance) (r : Request) (status : ℕ) (text : Str)
    (origins : List Str) (headers : Headers)
    → validate_instances is ≡ none
    → Memᴰ inst is
    → (chain_middleware_for_instance decoders config verify inst origins reach headers r).outcome
      ≡ replied status text
    → ((status ≡ 204) × IsPreflight origins r)
      ⊎ ((¬ IsPreflight origins r)
          × (((status ≡ 401)
                × Denied decoders inst.auth config.http_api_key_header_name verify
                    (selecting config r))
              ⊎ ((status ≡ 501) × IsUnverifiable inst.auth verify r.headers)))
validated_route decoders config verify is inst r status text origins headers valid m h =
    elim (chain_middleware_for_instance_rejected decoders config verify inst r status text origins
      headers h) [
        | inl a ↦ inl a
        | inr (n, inl b) ↦ inr (n, inl b)
        | inr (n, inr (inl c)) ↦ inr (n, inr c)
        | inr (n, inr (inr d)) ↦
            absurd (not-IsUnknown inst.auth (auth_of_validated is inst valid m) d.1)
      ]
