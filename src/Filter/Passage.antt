-- ===== src/Filter/Passage.antt =====
-- The whole of the response phase: from a response to its passing unchanged.
mod Examples
use mathlib.Core.Path.{subst, ap₂}
use consent_plugin.Common.{
  ℕ, String, ◌≡◌, ◌⊎◌, refl, sym, ap, ◌∙◌, inl, inr, true, false, Option, none, some, List, arith,
  Option-cases, All,
}
use consent_plugin.Common.Arrangement.{TextSorter}
use consent_plugin.Common.Int.{ℤ}
use consent_plugin.Common.Map.{Map}
use consent_plugin.Audit.{Emitter}
use consent_plugin.Audit.Simulation.{some_injective}
use consent_plugin.Config.{Config, is_fail_open}
use consent_plugin.Consent.{Decision, allow, deny}
use consent_plugin.Consent.Cache.{Client, new_client}
use consent_plugin.Context.{RequestContext, Store, load_and_delete_request_context}
use consent_plugin.Failure.{ok}
use consent_plugin.Metrics.{Metrics}
use consent_plugin.Resolver.{Resolution}
use consent_plugin.Runtime.{Runtime, World}
use consent_plugin.Filter.{ResponseOutcome, OwnerClaim, always_closed, fail_outcome}
use consent_plugin.Filter.Denial.{Header}
use consent_plugin.Filter.Enforcement.{denial_of, response_filter}
use consent_plugin.Filter.Gate.{Answers, IsConsented, released-IsConsented}
use consent_plugin.Filter.Owners.{Checks, start, Run, verdict}
use consent_plugin.Filter.Owners.Reduction.{IsSettled}
use consent_plugin.Filter.Phase.{
  Response, Verdict, decided, to_check, client_config_from_cfg, correlation_key, after_resolve,
  evaluate_with_resolver, evaluate,
}
use consent_plugin.Filter.Phase.Release.{
  Asked, Reason, IsDenial, IsOpenFailure, evaluate_with_resolver-Reason, after_resolve-covers,
}

module _ (rt : Runtime) (cfg : Config) where
  -- the client of a response
  abbrev pub client_of : Client
  client_of = new_client (client_config_from_cfg cfg)

  -- the request's context in the store, for the id of the response
  abbrev pub context_of : Response → ℕ → Store → Option RequestContext
  context_of w now store = elim (correlation_key w.var_) [
    | none ↦ none
    | some key ↦ (load_and_delete_request_context now key store).0
  ]

  -- How the outcome comes of what the phase came to: at once, or by the owners' checks, which end
  -- within the phase's time.
  pub data Concludes (w : Response)
      : Option RequestContext → Verdict → ResponseOutcome → Type 0 where
    at_once :
        {found : Option RequestContext} {o : ResponseOutcome} → Concludes w found (decided o) o
    by_checks :
        {ctx : RequestContext} {claims : List OwnerClaim} {asked : String} {o : ResponseOutcome}
        (key : String) (s : Checks)
        → correlation_key w.var_ ≡ some key
        → Run (Answers rt client_of) ctx asked claims (start claims) s
        → All IsSettled s.tasks
        → s.expired ≡ false
        → o ≡ verdict cfg key ctx asked claims s
        → Concludes w (some ctx) (to_check claims asked) o

  -- What the passing of a response rests on: its request's context was in the store, and the resolver,
  -- asked between the two parties, said that no consent is required, or the consent for every claim
  -- that it made was checked and approved.
  pub record Justified (w : Response) (now : ℕ) (store store' : Store) (w₀ w' : World)
      : Type 0 where
    pub key : String
    pub ctx : RequestContext
    pub consumer : String
    pub result : Resolution
    pub correlated : correlation_key w.var_ ≡ some key
    pub loaded : load_and_delete_request_context now key store ≡ (some ctx, store')
    pub resolved : Asked cfg key rt client_of ctx w w₀ w' consumer (ok result)
    pub consented :
        (result.consent_required ≡ false)
        ⊎ All (IsConsented rt client_of ctx consumer) result.claims

  denied_outcome :
      (key : String) (ctx : RequestContext) (w : Response) (found : Option RequestContext)
      (v : Verdict) (o : ResponseOutcome)
      → Concludes w found v o
      → IsDenial cfg key rt client_of ctx w v
      → o.decision ≡ deny
  denied_outcome key ctx w found v o at_once d = d
  denied_outcome key ctx w found v o (by_checks k s corr run settled live e) d = absurd d

  not_open :
      (key : String) (ctx : RequestContext) (w : Response) (v : Verdict)
      → is_fail_open cfg ≡ false
      → ¬ IsOpenFailure cfg key rt client_of ctx w v
  not_open key ctx w (decided o) closed (open_, mode, a) = ground arith
  not_open key ctx w (to_check claims asked) closed h = h

  allowed :
      {H : Type 0} (hd : Header H) (d : Decision) (h : H) → denial_of hd cfg d h ≡ none → d ≡ allow
  unfolding denial_of
  allowed hd allow h e = refl
  allowed hd deny h e = cc

  consent_of :
      (key : String) (ctx : RequestContext) (w : Response) (consumer : String) (result : Resolution)
      (v : Verdict) (o : ResponseOutcome)
      → correlation_key w.var_ ≡ some key
      → v ≡ after_resolve cfg key ctx consumer result
      → Concludes w (some ctx) v o
      → is_fail_open cfg ≡ false
      → o.decision ≡ allow
      → (result.consent_required ≡ false)
        ⊎ All (IsConsented rt client_of ctx consumer) result.claims
  consent_of key ctx w consumer result v o corr e at_once closed a =
      inl ((after_resolve-covers cfg key rt client_of ctx w consumer result).1 o (sym e) a)
  consent_of key ctx w consumer result v o corr e
        (by_checks {claims} {asked} k s corr' run settled live same) closed a =
      let same_key : k ≡ key = some_injective (sym corr' ∙ corr) in
      let allows : (verdict cfg key ctx asked claims s).decision ≡ allow =
        subst (λ (x : String). (verdict cfg x ctx asked claims s).decision ≡ allow) same_key
          (ap (λ x. x.decision) (sym same) ∙ a) in
      let covers =
        (after_resolve-covers cfg key rt client_of ctx w consumer result).0 claims asked (sym e) in
      let consented =
        released-IsConsented rt client_of cfg key ctx w consumer asked result claims s (sym e) run
          settled closed live allows in
      inr (subst (λ x. All (IsConsented rt client_of ctx x) result.claims) covers.1 consented)

  closed_verdict : String → String → Verdict
  closed_verdict key reason = decided (fail_outcome cfg always_closed reason key none)

  closed_denies :
      (key reason : String) (w : Response) (found : Option RequestContext) (v : Verdict)
      (o : ResponseOutcome)
      → v ≡ closed_verdict key reason
      → Concludes w found v o
      → o.decision ≡ deny
  unfolding closed_verdict fail_outcome
  closed_denies key reason w found v o e at_once = ap decision_of e
    where
      decision_of : Verdict → Decision
      decision_of (decided x) = x.decision
      decision_of (to_check claims asked) = deny
  closed_denies key reason w found v o e (by_checks k s corr run settled live same) =
      absurd (ground arith)

  evaluate_uncorrelated :
      (w : Response) (now : ℕ) (store : Store) (w₀ : World)
      → correlation_key w.var_ ≡ none
      → evaluate rt cfg w now store w₀
        ≡ ((closed_verdict "" "no request correlation id", store), w₀)
  unfolding evaluate closed_verdict
  evaluate_uncorrelated w now store w₀ e = rw (e, evaluate) refl

  evaluate_absent :
      (w : Response) (now : ℕ) (store : Store) (w₀ : World) (key : String)
      → correlation_key w.var_ ≡ some key
      → (load_and_delete_request_context now key store).0 ≡ none
      → evaluate rt cfg w now store w₀ ≡ (
        (
          closed_verdict key "no request context",
          (load_and_delete_request_context now key store).1,
        ),
        w₀,
      )
  unfolding evaluate closed_verdict
  evaluate_absent w now store w₀ key e l = rw (e, evaluate, l) refl

  evaluate_found :
      (w : Response) (now : ℕ) (store : Store) (w₀ : World) (key : String) (ctx : RequestContext)
      → correlation_key w.var_ ≡ some key
      → (load_and_delete_request_context now key store).0 ≡ some ctx
      → let r = evaluate_with_resolver cfg key rt client_of ctx w w₀ in
        evaluate rt cfg w now store w₀
        ≡ ((r.0, (load_and_delete_request_context now key store).1), r.1)
  unfolding evaluate
  evaluate_found w now store w₀ key ctx e l = rw (e, evaluate, l) refl

  context_found :
      (w : Response) (now : ℕ) (store : Store) (key : String) (ctx : RequestContext)
      → correlation_key w.var_ ≡ some key
      → (load_and_delete_request_context now key store).0 ≡ some ctx
      → context_of w now store ≡ some ctx
  context_found w now store key ctx e l = rw (e, context_of, l) refl

  allowed_not_denied :
      {A : Type 0} (o : ResponseOutcome) → o.decision ≡ allow → o.decision ≡ deny → A
  allowed_not_denied o a d = cc (a, d)

  justified :
      (w : Response) (now : ℕ) (store store' : Store) (w₀ w' : World) (v : Verdict)
      (o : ResponseOutcome) (key : String) (ctx : RequestContext)
      → correlation_key w.var_ ≡ some key
      → load_and_delete_request_context now key store ≡ (some ctx, store')
      → evaluate_with_resolver cfg key rt client_of ctx w w₀ ≡ (v, w')
      → Concludes w (some ctx) v o
      → is_fail_open cfg ≡ false
      → o.decision ≡ allow
      → Justified w now store store' w₀ w'
  justified w now store store' w₀ w' v o key ctx corr loaded e c closed a =
      elim (evaluate_with_resolver-Reason cfg key rt client_of ctx w w₀ w' v e) [
        | inl (inl d, way) ↦ allowed_not_denied o a (denied_outcome key ctx w (some ctx) v o c d)
        | inl (inr open_, way) ↦ absurd (not_open key ctx w v closed open_)
        | inr (consumer, result, resolved, same) ↦ record {
          key = key;
          ctx = ctx;
          consumer = consumer;
          result = result;
          correlated = corr;
          loaded = loaded;
          resolved = resolved;
          consented = consent_of key ctx w consumer result v o corr same c closed a;
        }
      ]

  -- The gate as a whole: where ResponseFilter lets a response pass unchanged, with fail_open unset and
  -- the owners' checks ended within the phase's time, the request's context was in the store, both
  -- parties were identified, and the resolver answered about the body, which is within its cap, that no
  -- consent is required, or the consent client approved the pair of owner and resource of every claim
  -- that the resolver made, whatever the order of the checks, and whatever other requests do to the
  -- client's caches meanwhile.
  pub passed-Justified :
      (t : TextSorter) (show_duration : ℤ → String) {H : Type 0} (hd : Header H) {F S : Type 0}
      (w : Response) (now : ℕ) (store store' : Store) (w₀ w' : World) (v : Verdict)
      (o : ResponseOutcome) (h : H) (metrics : Metrics F S) (emitters : Map Emitter)
      → evaluate rt cfg w now store w₀ ≡ ((v, store'), w')
      → Concludes w (context_of w now store) v o
      → is_fail_open cfg ≡ false
      → (response_filter t show_duration hd now cfg o h metrics emitters).written ≡ none
      → Justified w now store store' w₀ w'
  unfolding response_filter
  passed-Justified t show_duration hd w now store store' w₀ w' v o h metrics emitters e c closed p =
      let a : o.decision ≡ allow = allowed hd o.decision h p in
      elim (Option-cases (correlation_key w.var_)) [
        | inl none_ ↦
            let same = ap (λ r. r.0.0) (sym e ∙ evaluate_uncorrelated w now store w₀ none_) in
            allowed_not_denied o a (closed_denies "" "no request correlation id" w _ v o same c)
        | inr (key, corr) ↦
            elim (Option-cases ((load_and_delete_request_context now key store).0)) [
              | inl lost ↦
                  let same =
                    ap (λ r. r.0.0) (sym e ∙ evaluate_absent w now store w₀ key corr lost) in
                  allowed_not_denied o a (closed_denies key "no request context" w _ v o same c)
              | inr (ctx, there) ↦
                  let r = sym (evaluate_found w now store w₀ key ctx corr there) ∙ e in
                  let loaded : load_and_delete_request_context now key store ≡ (some ctx, store') =
                    ap₂ (λ x y. (x, y)) there (ap (λ r. r.0.1) r) in
                  let phase : evaluate_with_resolver cfg key rt client_of ctx w w₀ ≡ (v, w') =
                    ap₂ (λ x y. (x, y)) (ap (λ r. r.0.0) r) (ap (λ r. r.1) r) in
                  justified w now store store' w₀ w' v o key ctx corr loaded phase
                    (subst (λ f. Concludes w f v o) (context_found w now store key ctx corr there)
                      c)
                    closed a
            ]
      ]
