-- ===== src/Filter/Phase/Release.antt =====
-- On what grounds the phase releases a response, or goes on to the owners' checks.
use mathlib.Core.Path.{subst}
use consent_plugin.Common.{
  ℕ, ◌≤◌, String, ◌≡◌, ◌≢◌, ◌⊎◌, refl, sym, ap, ◌∙◌, inl, inr, true, false, none, List, arith,
  Bool-cases, Option-cases, List-cases, length, All,
}
use consent_plugin.Common.Int.{ℤ, pos, negsuc, ltb_ℤ}
use consent_plugin.Failure.{Failure, Result, ok, err, Result-cases}
use consent_plugin.Runtime.{Bytes, Runtime, World, Outcome-cases}
use consent_plugin.Context.{RequestContext}
use consent_plugin.Config.{Config, is_fail_open}
use consent_plugin.Consent.{allow, deny}
use consent_plugin.Consent.Cache.{Client}
use consent_plugin.Consent.Client.Credentials.{provider_self_description}
use consent_plugin.Consent.Client.Registry.{participant_self_description_by_did}
use consent_plugin.Resolver.{Resolution, resolve}
use consent_plugin.ClaimPath.{consumer_from_claims}
use consent_plugin.Filter.{
  ResponseOutcome, FailMode, by_policy, always_closed, fail_outcome, OwnerClaim, distinct_claims,
  check_purpose_scoping,
}
use consent_plugin.Filter.Claims.{IsDigest, distinct_claims-IsDigest, check_purpose_scoping_iff}
use consent_plugin.Filter.Phase.{
  Response, Verdict, decided, to_check, resource_for, parties, capped, after_resolve, identify,
  evaluate_with_resolver,
}

-- `n` is at most the integer
abbrev pub AtMost : ℕ → ℤ → Type 0
AtMost n (pos m) = n ≤ m
AtMost n (negsuc m) = ⊥

module _ (cfg : Config) (key : String) (rt : Runtime) (c : Client) (ctx : RequestContext)
    (w : Response) where
  -- The way to the resolver, and what it answered: the body was read and is within its cap, the token
  -- named a consumer, the registry knew it, and the provider's own self-description was found.
  pub record Asked (w₀ w' : World) (consumer : String) (answer : Result Resolution) : Type 0 where
    pub body : Bytes
    pub did : String
    pub provider : String
    pub looked_up : World
    pub identified : World
    pub read : w.read_body ≡ ok body
    pub within_cap : AtMost (length body) cfg.max_resolve_body_bytes
    pub named : consumer_from_claims ctx.jwt_claims cfg.consumer_claim ≡ ok did
    pub registered : participant_self_description_by_did rt c did w₀ ≡ (ok consumer, looked_up)
    pub provided : provider_self_description rt c looked_up ≡ (ok provider, identified)
    pub answered :
        resolve rt cfg.owner_resolver_url
          (resource_for cfg key rt c ctx w)
          (parties cfg key rt c ctx consumer provider)
          body
          identified
        ≡ (answer, w')

  -- What was done where the resolver is not asked: nothing at all, or the lookup of one party, which
  -- failed, or the lookups of both, of which the second failed.
  abbrev pub Unasked : World → World → Type 0
  Unasked w₀ w' =
      (w' ≡ w₀)
      ⊎ ((did : String) × (f : Failure) × (participant_self_description_by_did rt c did w₀
            ≡ (err f, w')))
      ⊎ ((did : String) × (consumer : String) × (f : Failure) × (w₁ : World)
          × (participant_self_description_by_did rt c did w₀ ≡ (ok consumer, w₁))
          × (provider_self_description rt c w₁ ≡ (err f, w')))

  -- An outage that the operator chose to ride out.
  abbrev pub IsOpenFailure : Verdict → Type 0
  IsOpenFailure (decided o) =
      (is_fail_open cfg ≡ true) × (o.fail_mode ≡ "by_policy") × (o.decision ≡ allow)
  IsOpenFailure (to_check cs consumer) = ⊥

  abbrev pub IsDenial : Verdict → Type 0
  IsDenial (decided o) = o.decision ≡ deny
  IsDenial (to_check cs consumer) = ⊥

  -- The ways to a denial, or to a failure that fail_open lets pass: the resolver was not asked, or
  -- asked about a body within its cap, between two identified parties, and failed.
  abbrev pub Stopped : World → World → Type 0
  Stopped w₀ w' =
      Unasked w₀ w' ⊎ ((consumer : String) × (f : Failure) × Asked w₀ w' consumer (err f))

  -- What the phase came to, and whom it asked before: a denial, a failure that fail_open lets pass, or
  -- the resolver's answer.
  abbrev pub Reason : World → Verdict → World → Type 0
  Reason w₀ v w' =
      (IsDenial v ⊎ IsOpenFailure v) × Stopped w₀ w'
      ⊎ ((consumer : String) × (result : Resolution) × Asked w₀ w' consumer (ok result)
          × (v ≡ after_resolve cfg key ctx consumer result))

  failed_reason :
      (mode : FailMode) (reason : String)
      → IsDenial (decided (fail_outcome cfg mode reason key none))
        ⊎ IsOpenFailure (decided (fail_outcome cfg mode reason key none))
  unfolding fail_outcome
  failed_reason always_closed reason = inl refl
  failed_reason by_policy reason = elim (Bool-cases (is_fail_open cfg)) [
    | inl e ↦ inr (e, refl, ground arith)
    | inr e ↦ inl (ground arith)
  ]

  stopped :
      (mode : FailMode) (reason : String) (w₀ w₁ w' : World) (v : Verdict)
      → ◌≡◌ {A = Verdict × World} (decided (fail_outcome cfg mode reason key none), w₁) (v, w')
      → Stopped w₀ w₁
      → Reason w₀ v w'
  stopped mode reason w₀ w₁ w' v h way = inl (
    subst (λ u. IsDenial u ⊎ IsOpenFailure u) (ap (λ p. p.0) h) (failed_reason mode reason),
    subst (Stopped w₀) (ap (λ p. p.1) h) way,
  )

  untouched :
      (mode : FailMode) (reason : String) (w₀ w' : World) (v : Verdict)
      → ◌≡◌ {A = Verdict × World} (decided (fail_outcome cfg mode reason key none), w₀) (v, w')
      → Reason w₀ v w'
  untouched mode reason w₀ w' v h = stopped mode reason w₀ w₀ w' v h (inl (inl refl))

  identify-Reason :
      (body : Bytes) (did : String) (w₀ w' : World) (v : Verdict)
      → w.read_body ≡ ok body
      → AtMost (length body) cfg.max_resolve_body_bytes
      → consumer_from_claims ctx.jwt_claims cfg.consumer_claim ≡ ok did
      → identify cfg key rt c ctx w body did w₀ ≡ (v, w')
      → Reason w₀ v w'
  unfolding identify
  identify-Reason body did w₀ w' v read cap named h =
      elim (Outcome-cases (participant_self_description_by_did rt c did w₀)) [
        | inl (f, w₁, e) ↦ stopped _ _ w₀ w₁ w' v (rw e at h) (inl (inr (inl (did, f, e))))
        | inr (consumer, w₁, e) ↦ elim (Outcome-cases (provider_self_description rt c w₁)) [
          | inl (f, w₂, e') ↦
              stopped _ _ w₀ w₂ w' v (rw (e, e') at h)
                (inl (inr (inr (did, consumer, f, w₁, e, e'))))
          | inr (provider, w₂, e') ↦
              let way =
                λ (answer : Result Resolution) (w₃ : World)
                    (e'' : resolve rt cfg.owner_resolver_url (resource_for cfg key rt c ctx w)
                        (parties cfg key rt c ctx consumer provider) body w₂
                      ≡ (answer, w₃)).
                  asked body did consumer provider w₀ w₁ w₂ w₃ answer read cap named e e' e'' in
              elim (Outcome-cases (
                resolve rt cfg.owner_resolver_url (resource_for cfg key rt c ctx w)
                  (parties cfg key rt c ctx consumer provider) body w₂)) [
                    | inl (f, w₃, e'') ↦
                        stopped _ _ w₀ w₃ w' v (rw (e, e', e'') at h)
                          (inr (consumer, f, way (err f) w₃ e''))
                    | inr (result, w₃, e'') ↦
                        let end_ : ◌≡◌ {A = Verdict × World}
                            (after_resolve cfg key ctx consumer result, w₃) (v, w') =
                          rw (e, e', e'') at h in
                        inr (
                          consumer,
                          result,
                          way (ok result) w' (e'' ∙ ap (λ u. (ok result, u)) (ap (λ p. p.1) end_)),
                          sym (ap (λ p. p.0) end_),
                        )
                  ]
        ]
      ]
    where
      asked :
          (body : Bytes) (did consumer provider : String) (w₀ w₁ w₂ w₃ : World)
          (answer : Result Resolution)
          → w.read_body ≡ ok body
          → AtMost (length body) cfg.max_resolve_body_bytes
          → consumer_from_claims ctx.jwt_claims cfg.consumer_claim ≡ ok did
          → participant_self_description_by_did rt c did w₀ ≡ (ok consumer, w₁)
          → provider_self_description rt c w₁ ≡ (ok provider, w₂)
          → resolve rt cfg.owner_resolver_url
              (resource_for cfg key rt c ctx w)
              (parties cfg key rt c ctx consumer provider)
              body
              w₂
            ≡ (answer, w₃)
          → Asked w₀ w₃ consumer answer
      asked body did consumer provider w₀ w₁ w₂ w₃ answer read cap named e e' e'' = record {
        body = body;
        did = did;
        provider = provider;
        looked_up = w₁;
        identified = w₂;
        read = read;
        within_cap = cap;
        named = named;
        registered = e;
        provided = e';
        answered = e'';
      }

  within : (n : ℕ) (cap : ℤ) → ltb_ℤ cap (pos n) ≡ false → AtMost n cap
  within n (pos m) h = ground arith
  within n (negsuc m) h = ground arith

  -- Every way through the phase ends in a denial, in an outage under fail_open, or in what the
  -- resolver answered; and on each of these ways the resolver is asked only about a body that was read
  -- and is within its cap, between two parties that were both identified: where it is not asked, the
  -- state is as it was, or as the lookups of the parties left it, of which the last one failed.
  pub evaluate_with_resolver-Reason :
      (w₀ w' : World) (v : Verdict)
      → evaluate_with_resolver cfg key rt c ctx w w₀ ≡ (v, w')
      → Reason w₀ v w'
  unfolding evaluate_with_resolver
  evaluate_with_resolver-Reason w₀ w' v h = elim (Result-cases w.read_body) [
    | inl (f, e) ↦ untouched _ _ w₀ w' v (rw e at h)
    | inr (body, e) ↦ elim (Bool-cases (ltb_ℤ cfg.max_resolve_body_bytes (pos (length body)))) [
      | inl large ↦ untouched _ _ w₀ w' v (rw (e, large) at h)
      | inr fits ↦ elim (Result-cases (consumer_from_claims ctx.jwt_claims cfg.consumer_claim)) [
        | inl (f, e') ↦ untouched _ _ w₀ w' v (rw (e, fits, e') at h)
        | inr (did, e') ↦
            identify-Reason body did w₀ w' v e (within _ _ fits) e' (rw (e, fits, e') at h)
      ]
    ]
  ]

  -- The owners' checks cover the resolver's claims: they begin only after the resolver required
  -- consent, for exactly one entry of each pair of owner and resource that it named, at most
  -- max_owners_per_response of them, and under require_purpose each with a purpose; and without that,
  -- its answer ends the phase, with an allow only where no consent is required.
  pub after_resolve-covers :
      (consumer : String) (result : Resolution)
      → ((claims : List OwnerClaim) (consumer' : String)
          → after_resolve cfg key ctx consumer result ≡ to_check claims consumer'
          → (result.consent_required ≡ true)
            × (consumer' ≡ consumer)
            × IsDigest result.claims claims
            × AtMost (length claims) cfg.max_owners_per_response
            × (cfg.require_purpose ≡ true → All (λ k. k.purpose ≢ "") claims))
        × ((o : ResponseOutcome)
            → after_resolve cfg key ctx consumer result ≡ decided o
            → o.decision ≡ allow
            → result.consent_required ≡ false)
  unfolding after_resolve capped fail_outcome
  after_resolve-covers consumer result = elim (Bool-cases result.consent_required) [
    | inr free ↦ (λ claims consumer' h. ground arith, λ o h a. free)
    | inl required ↦ elim (List-cases result.claims) [
      | inl e ↦ (λ claims consumer' h. ground arith, λ o h a. ground arith)
      | inr (k, ks, e) ↦ elim (Result-cases (distinct_claims result.claims)) [
        | inl (f, d) ↦ (λ claims consumer' h. ground arith, λ o h a. ground arith)
        | inr (digest, d) ↦ elim (Option-cases (check_purpose_scoping cfg key digest)) [
          | inr (o, s) ↦ (
            λ claims consumer' h. ground arith,
            λ o' h a. let denies = (check_purpose_scoping_iff cfg key digest).1 o s in ground arith,
          )
          | inl s ↦ elim (Bool-cases (ltb_ℤ cfg.max_owners_per_response (pos (length digest)))) [
            | inl many ↦ (λ claims consumer' h. ground arith, λ o h a. ground arith)
            | inr few ↦ (
              λ claims consumer' h.
                  let same : digest ≡ claims = ground arith in
                  (
                    required,
                    ground arith,
                    subst (IsDigest result.claims) same
                        (distinct_claims-IsDigest result.claims digest d),
                    subst (λ l. AtMost (length l) cfg.max_owners_per_response) same
                        (within _ _ few),
                    λ on.
                        subst (All (λ k. k.purpose ≢ "")) same
                          ((check_purpose_scoping_iff cfg key digest).0.0 s on),
                  ),
              λ o h a. ground arith,
            )
          ]
        ]
      ]
    ]
  ]
