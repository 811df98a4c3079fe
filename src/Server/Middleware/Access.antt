-- ===== src/Server/Middleware/Access.antt =====
-- Which requests the single-instance chain hands to the handler behind it.
use neo4j_mcp_canary.Prelude.{
  Bool, true, false, List, [], ◌∷◌, Option, none, some, ◌≡◌, ◌≢◌, ◌⊎◌, inl, inr, refl, ap, sym, ◌∙◌,
  Bool-cases, Memᴰ, ltb_int, pos,
}
use neo4j_mcp_canary.Text.{Str, codes, ◌==s◌}
use neo4j_mcp_canary.Text.Laws.{==s_iff}
use neo4j_mcp_canary.Text.Search.{has_substring}
use neo4j_mcp_canary.Server.Http.{bytes_reader, read_all, Request, Decoders}
use neo4j_mcp_canary.Server.Middleware.{
  ProbeError, body_too_large, read_failed, not_json, with_body, is_method, probe_read,
  is_unauthenticated_method_request, Probe, matched, after_probe, probe_methods,
  max_unauthenticated_body_bytes,
}

-- A POST request, within the bound on unauthenticated bodies, whose body is the JSON of a call of
-- one of the methods.
abbrev pub IsCallOf : Decoders → List Str → Request → Str → Type 0
IsCallOf decoders methods r method =
    Memᴰ method methods
    × (r.method ≡ codes "POST")
    × (ltb_int (pos max_unauthenticated_body_bytes) r.content_length ≡ false)
    × (r.body.failure ≡ none)
    × (decoders.json_method r.body.content ≡ inr method)

matched_inj : {m n : Str} {r s : Request} → matched m r ≡ matched n s → (m ≡ n) × (r ≡ s)
matched_inj h = (cc, cc)

is_method_lem :
    (method : Str) (o : Str ⊎ Str)
    → ◌≡◌ {A = ProbeError ⊎ Bool} (is_method method o) (inr true)
    → o ≡ inr method
is_method_lem method (inl e) h = absurd (cc)
is_method_lem method (inr m) h = ap inr ((==s_iff m method).0 (cc))

-- A body that was read to its end is put back as it was.
pub restored : (r : Request) → r.body.failure ≡ none → with_body r (bytes_reader r.body.content) ≡ r
restored r e = ap (λ f. with_body r (record { content = r.body.content; failure = f })) (sym e)

module _ (decoders : Decoders)
    (json_rejects_nothing : (m : Str) → decoders.json_method [] ≢ inr m) where
  after_cases :
      (method : Str) (continue : Request → Probe) (m : Str) (r' : Request) (x : ProbeError ⊎ Bool)
      (s : Request)
      → after_probe method continue (x, s) ≡ matched m r'
      → ((x ≡ inr true) × (method ≡ m) × (s ≡ r')) ⊎ (continue s ≡ matched m r')
  after_cases method continue m r' (inl body_too_large) s h = absurd (cc)
  after_cases method continue m r' (inl (read_failed e)) s h = inr h
  after_cases method continue m r' (inl (not_json e)) s h = inr h
  after_cases method continue m r' (inr true) s h =
      (let (same, s') = matched_inj h in inl (refl, same, s'))
  after_cases method continue m r' (inr false) s h = inr h

  -- What a probe means that matches in the end: this method matched with what was read, or the loop
  -- goes on with what was read, or with an empty body.
  read_cases :
      (method : Str) (r : Request) (continue : Request → Probe) (m : Str) (r' : Request)
      (o : Str ⊎ Str)
      → after_probe method continue (probe_read decoders r method o) ≡ matched m r'
      → ((buf : Str) × (o ≡ inr buf)
          × (((decoders.json_method buf ≡ inr method)
                × (method ≡ m)
                × (with_body r (bytes_reader buf) ≡ r'))
              ⊎ (continue (with_body r (bytes_reader buf)) ≡ matched m r')))
        ⊎ (continue (with_body r (bytes_reader [])) ≡ matched m r')
  read_cases method r continue m r' (inl e) h =
      elim (Bool-cases (has_substring e (codes "request body too large"))) [
        | inl b ↦ absurd (let h' = rw b at h in cc)
        | inr b ↦ inr (rw b at h)
      ]
  read_cases method r continue m r' (inr buf) h =
      elim (after_cases method continue m r' (is_method method (decoders.json_method buf))
        (with_body r (bytes_reader buf)) h) [
          | inl (x, same, s) ↦ inl (buf, refl, inl (is_method_lem method _ x, same, s))
          | inr more ↦ inl (buf, refl, inr more)
        ]

  read_all_lem :
      (c : Str) (f : Option Str) (buf : Str)
      → ◌≡◌ {A = Str ⊎ Str} (read_all (record { content = c; failure = f })) (inr buf)
      → (f ≡ none) × (c ≡ buf)
  read_all_lem c none buf h = (refl, cc)
  read_all_lem c (some e) buf h = absurd (cc)

  also_later :
      (method : Str) (methods : List Str) (r : Request) (m : Str) (r' : Request)
      → IsCallOf decoders methods r m × (r' ≡ r)
      → IsCallOf decoders (method ∷ methods) r m × (r' ≡ r)
  also_later method methods r m r' (call, same) =
      ((Memᴰ.tail call.0, call.1, call.2, call.3, call.4), same)

  -- The loop ends in a match only at a call of one of its methods, and leaves the request as it was.
  pub probe_methods_lem :
      (methods : List Str) (r : Request) (m : Str) (r' : Request)
      → probe_methods decoders methods r ≡ matched m r'
      → IsCallOf decoders methods r m × (r' ≡ r)
  unfolding probe_methods is_unauthenticated_method_request
  probe_methods_lem [] r m r' h = absurd (cc)
  probe_methods_lem (method ∷ methods) r m r' h = elim (Bool-cases (r.method ==s codes "POST")) [
    | inr e ↦ also_later method methods r m r' (probe_methods_lem methods r m r' (rw e at h))
    | inl e ↦ elim (Bool-cases (ltb_int (pos max_unauthenticated_body_bytes) r.content_length)) [
      | inl big ↦ absurd (let h' = rw (e, big) at h in cc)
      | inr small ↦
          elim (read_cases method r (probe_methods decoders methods) m r' (read_all r.body)
            (rw (e, small) at h)) [
              | inr more ↦
                  let (call, _) =
                    probe_methods_lem methods (with_body r (bytes_reader [])) m r' more in
                  absurd (json_rejects_nothing m call.4)
              | inl (buf, read, rest) ↦
                  let (whole, same) = read_all_lem r.body.content r.body.failure buf read in
                  let back : with_body r (bytes_reader buf) ≡ r =
                    ap (λ b. with_body r (bytes_reader b)) (sym same) ∙ restored r whole in
                  elim rest [
                    | inl (json, name, s) ↦ (
                      (
                        Memᴰ.head (sym name),
                        (==s_iff _ _).0 e,
                        small,
                        whole,
                        ap decoders.json_method same ∙ json ∙ ap inr name,
                      ),
                      sym s ∙ back,
                    )
                    | inr more ↦ also_later method methods r m r' (
                        probe_methods_lem methods r m r'
                          (ap (probe_methods decoders methods) (sym back) ∙ more))
                  ]
            ]
    ]
  ]
