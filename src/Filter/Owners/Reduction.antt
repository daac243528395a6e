-- ===== src/Filter/Owners/Reduction.antt =====
-- The two scans of `reduceOwnerResults`, against the tasks that left the results.
use consent_plugin.Common.{
  String, ◌≡◌, ◌⊎◌, refl, inl, inr, Bool, true, false, not, ◌&&◌, none, some, List, [], ◌∷◌, arith,
  Bool-cases, Some, All,
}
use consent_plugin.Failure.{Result, ok, err, is_canceled}
use consent_plugin.Context.{RequestContext}
use consent_plugin.Config.{Config, is_fail_open}
use consent_plugin.Consent.{Decision, allow, deny, ConsentRequest, ConsentResponse}
use consent_plugin.Filter.{
  OwnerClaim, ResponseOutcome, by_policy, fail_outcome, fail_mode_for_error,
}
use consent_plugin.Filter.Owners.{
  Task, waiting, running, skipped, answered, request_for, result_of, results_of, first_deny,
  first_error,
}

abbrev pub SameLength : List OwnerClaim → List Task → Type 0
SameLength [] [] = Unit
SameLength (c ∷ cs) (t ∷ ts) = SameLength cs ts
SameLength _ _ = ⊥

-- The goroutine has returned.
abbrev pub IsSettled : Task → Type 0
IsSettled waiting = ⊥
IsSettled running = ⊥
IsSettled _ = Unit

abbrev pub IsRefusal : Task → Type 0
IsRefusal (answered (ok resp)) = resp.decision ≡ deny
IsRefusal _ = ⊥

abbrev pub IsOutage : Task → Type 0
IsOutage (answered (err f)) = fail_mode_for_error f ≡ by_policy
IsOutage _ = ⊥

-- The claim's check was made, and it was answered with allow.
abbrev pub Allowed :
    (ConsentRequest → Result ConsentResponse → Type 0)
    → RequestContext
    → String
    → OwnerClaim
    → Type 0
Allowed answers ctx consumer c =
    (resp : ConsentResponse) × (resp.decision ≡ allow)
    × answers (request_for ctx consumer c) (ok resp)

abbrev pub IsSkipped : Task → Type 0
IsSkipped skipped = Unit
IsSkipped _ = ⊥

-- The check was answered with allow, or was not made.
abbrev pub IsHarmless : Task → Type 0
IsHarmless skipped = Unit
IsHarmless (answered (ok resp)) = resp.decision ≡ allow
IsHarmless _ = ⊥

-- Nothing that either loop of the reduction reports.
abbrev pub IsQuiet : Bool → Task → Type 0
IsQuiet phase_done (answered (err f)) = (is_canceled f ≡ true) × (phase_done ≡ false)
IsQuiet phase_done t = IsHarmless t

pub allows-cases : (d : Decision) → (d ≡ allow) ⊎ (d ≡ deny)
allows-cases allow = inl refl
allows-cases deny = inr refl

module _ (cfg : Config) (key : String) (ctx : RequestContext) (consumer : String) where
  pub deny_is_deny :
      (claims : List OwnerClaim) (tasks : List Task) (o : ResponseOutcome)
      → first_deny (results_of key ctx consumer claims tasks) ≡ some o
      → o.decision ≡ deny
  unfolding first_deny results_of result_of
  deny_is_deny [] ts o h = ground arith
  deny_is_deny (c ∷ cs) [] o h = ground arith
  deny_is_deny (c ∷ cs) (waiting ∷ ts) o h = deny_is_deny cs ts o h
  deny_is_deny (c ∷ cs) (running ∷ ts) o h = deny_is_deny cs ts o h
  deny_is_deny (c ∷ cs) (skipped ∷ ts) o h = deny_is_deny cs ts o h
  deny_is_deny (c ∷ cs) (answered (err f) ∷ ts) o h = deny_is_deny cs ts o h
  deny_is_deny (c ∷ cs) (answered (ok resp) ∷ ts) o h = ground (arith, deny_is_deny cs ts o)

  pub refusal_found :
      (claims : List OwnerClaim) (tasks : List Task)
      → SameLength claims tasks
      → Some IsRefusal tasks
      → (o : ResponseOutcome) × (first_deny (results_of key ctx consumer claims tasks) ≡ some o)
  unfolding first_deny results_of result_of
  refusal_found [] [] p s = absurd s
  refusal_found [] (t ∷ ts) p s = absurd p
  refusal_found (c ∷ cs) [] p s = absurd p
  refusal_found (c ∷ cs) (waiting ∷ ts) p (inl s) = absurd s
  refusal_found (c ∷ cs) (waiting ∷ ts) p (inr s) = refusal_found cs ts p s
  refusal_found (c ∷ cs) (running ∷ ts) p (inl s) = absurd s
  refusal_found (c ∷ cs) (running ∷ ts) p (inr s) = refusal_found cs ts p s
  refusal_found (c ∷ cs) (skipped ∷ ts) p (inl s) = absurd s
  refusal_found (c ∷ cs) (skipped ∷ ts) p (inr s) = refusal_found cs ts p s
  refusal_found (c ∷ cs) (answered (err f) ∷ ts) p (inl s) = absurd s
  refusal_found (c ∷ cs) (answered (err f) ∷ ts) p (inr s) = refusal_found cs ts p s
  refusal_found (c ∷ cs) (answered (ok resp) ∷ ts) p (inl s) = rw s (_, refl)
  refusal_found (c ∷ cs) (answered (ok resp) ∷ ts) p (inr s) =
      let (o, e) = refusal_found cs ts p s in
      elim (allows-cases resp.decision) [ inl a ↦ rw a (o, e) | inr d ↦ rw d (_, refl) ]

  pub error_is_fail :
      (done : Bool) (claims : List OwnerClaim) (tasks : List Task) (o : ResponseOutcome)
      → first_error cfg key done (results_of key ctx consumer claims tasks) ≡ some o
      → o.decision ≡ allow
      → (is_fail_open cfg ≡ true) × Some IsOutage tasks
  unfolding first_error results_of result_of fail_outcome
  error_is_fail done [] ts o h a = ground arith
  error_is_fail done (c ∷ cs) [] o h a = ground arith
  error_is_fail done (c ∷ cs) (waiting ∷ ts) o h a =
      let (f, s) = error_is_fail done cs ts o h a in (f, inr s)
  error_is_fail done (c ∷ cs) (running ∷ ts) o h a =
      let (f, s) = error_is_fail done cs ts o h a in (f, inr s)
  error_is_fail done (c ∷ cs) (skipped ∷ ts) o h a =
      let (f, s) = error_is_fail done cs ts o h a in (f, inr s)
  error_is_fail done (c ∷ cs) (answered (ok resp) ∷ ts) o h a =
      let (f, s) = error_is_fail done cs ts o h a in (f, inr s)
  error_is_fail done (c ∷ cs) (answered (err f) ∷ ts) o h a =
      elim (Bool-cases (is_canceled f && not done)) [
        | inl echo ↦ let (p, s) = error_is_fail done cs ts o (ground arith) a in (p, inr s)
        | inr own ↦ (ground arith, inl (ground arith))
      ]

  -- Where neither loop reports anything, each settled task was quiet.
  pub all-IsQuiet :
      (done : Bool) (claims : List OwnerClaim) (tasks : List Task)
      → SameLength claims tasks
      → All IsSettled tasks
      → first_deny (results_of key ctx consumer claims tasks) ≡ none
      → first_error cfg key done (results_of key ctx consumer claims tasks) ≡ none
      → All (IsQuiet done) tasks
  unfolding first_deny first_error results_of result_of
  all-IsQuiet done [] [] p s h k = tt
  all-IsQuiet done [] (t ∷ ts) p s h k = absurd p
  all-IsQuiet done (c ∷ cs) [] p s h k = tt
  all-IsQuiet done (c ∷ cs) (waiting ∷ ts) p (s, ss) h k = absurd s
  all-IsQuiet done (c ∷ cs) (running ∷ ts) p (s, ss) h k = absurd s
  all-IsQuiet done (c ∷ cs) (skipped ∷ ts) p (s, ss) h k = (tt, all-IsQuiet done cs ts p ss h k)
  all-IsQuiet done (c ∷ cs) (answered (ok resp) ∷ ts) p (s, ss) h k =
      elim (allows-cases resp.decision) [
        | inl a ↦ (a, all-IsQuiet done cs ts p ss (ground arith) k)
        | inr d ↦ ground arith
      ]
  all-IsQuiet done (c ∷ cs) (answered (err f) ∷ ts) p (s, ss) h k =
      elim (Bool-cases (is_canceled f && not done)) [
        | inl echo ↦ ((ground arith, ground arith), all-IsQuiet done cs ts p ss h (ground arith))
        | inr own ↦ ground arith
      ]
