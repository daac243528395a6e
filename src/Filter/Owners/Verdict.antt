-- ===== src/Filter/Owners/Verdict.antt =====
-- deny_all: what the verdict over the owners says about their answers, whatever the order in which the
-- goroutines moved.
use consent_plugin.Common.{
  ◌≤◌, String, ◌≡◌, ◌⊎◌, inl, inr, Bool, true, ◌||◌, List, [], ◌∷◌, arith, Option-cases, Some, All,
}
use consent_plugin.Failure.{Result, ok, err}
use consent_plugin.Context.{RequestContext}
use consent_plugin.Config.{Config, is_fail_open}
use consent_plugin.Consent.{allow, deny, ConsentRequest, ConsentResponse}
use consent_plugin.Filter.{OwnerClaim}
use consent_plugin.Filter.Owners.{
  Task, waiting, running, skipped, answered, Checks, start, in_flight, Run, results_of, first_deny,
  first_error, reduce_owner_results, verdict,
}
use consent_plugin.Filter.Owners.Progress.{
  IsDecisive, AllPossible, Echo, IsReachable, Run-IsReachable,
}
use consent_plugin.Filter.Owners.Reduction.{
  IsSettled, IsRefusal, IsOutage, Allowed, IsSkipped, IsHarmless, IsQuiet, SameLength, deny_is_deny,
  refusal_found, error_is_fail, all-IsQuiet,
}

module _ (answers : ConsentRequest → Result ConsentResponse → Type 0) (ctx : RequestContext)
    (consumer : String) where
  same_length :
      (stopped : Bool) (claims : List OwnerClaim) (tasks : List Task)
      → AllPossible answers ctx consumer stopped claims tasks
      → SameLength claims tasks
  same_length stopped [] [] p = tt
  same_length stopped [] (t ∷ ts) p = p
  same_length stopped (c ∷ cs) [] p = p
  same_length stopped (c ∷ cs) (t ∷ ts) (p, ps) = same_length stopped cs ts ps

  -- Harmless tasks: an allow for each claim, or a check that was not made.
  harmless :
      (stopped : Bool) (claims : List OwnerClaim) (tasks : List Task)
      → AllPossible answers ctx consumer stopped claims tasks
      → All IsHarmless tasks
      → All (Allowed answers ctx consumer) claims ⊎ (Some IsSkipped tasks × (stopped ≡ true))
  harmless stopped [] [] p h = inl tt
  harmless stopped [] (t ∷ ts) p h = absurd p
  harmless stopped (c ∷ cs) [] p h = absurd p
  harmless stopped (c ∷ cs) (waiting ∷ ts) p (h, hs) = absurd h
  harmless stopped (c ∷ cs) (running ∷ ts) p (h, hs) = absurd h
  harmless stopped (c ∷ cs) (skipped ∷ ts) (p, ps) (h, hs) = inr (inl tt, p)
  harmless stopped (c ∷ cs) (answered (err f) ∷ ts) p (h, hs) = absurd h
  harmless stopped (c ∷ cs) (answered (ok resp) ∷ ts) (p, ps) (h, hs) =
      elim (harmless stopped cs ts ps hs) [
        | inl all ↦ inl ((resp, h, p), all)
        | inr (some_skipped, e) ↦ inr (inr some_skipped, e)
      ]

  not_quiet : (done : Bool) (tasks : List Task) → All (IsQuiet done) tasks → ¬ Some IsDecisive tasks
  not_quiet done [] q s = s
  not_quiet done (waiting ∷ ts) (q, qs) s = absurd q
  not_quiet done (running ∷ ts) (q, qs) s = absurd q
  not_quiet done (skipped ∷ ts) (q, qs) (inl s) = s
  not_quiet done (skipped ∷ ts) (q, qs) (inr s) = not_quiet done ts qs s
  not_quiet done (answered (ok resp) ∷ ts) (q, qs) (inl s) = ground arith
  not_quiet done (answered (ok resp) ∷ ts) (q, qs) (inr s) = not_quiet done ts qs s
  not_quiet done (answered (err f) ∷ ts) (q, qs) (inl s) = ground arith
  not_quiet done (answered (err f) ∷ ts) (q, qs) (inr s) = not_quiet done ts qs s

  -- A quiet task is harmless unless it is the echo of a cancellation.
  quiet-IsHarmless :
      (done cancelled : Bool) (tasks : List Task)
      → (cancelled ≡ true → done ≡ true)
      → All (Echo answers ctx consumer cancelled) tasks
      → All (IsQuiet done) tasks
      → All IsHarmless tasks
  quiet-IsHarmless done cancelled [] n e q = tt
  quiet-IsHarmless done cancelled (waiting ∷ ts) n e (q, qs) = absurd q
  quiet-IsHarmless done cancelled (running ∷ ts) n e (q, qs) = absurd q
  quiet-IsHarmless done cancelled (skipped ∷ ts) n (e, es) (q, qs) =
      (tt, quiet-IsHarmless done cancelled ts n es qs)
  quiet-IsHarmless done cancelled (answered (ok resp) ∷ ts) n (e, es) (q, qs) =
      (q, quiet-IsHarmless done cancelled ts n es qs)
  quiet-IsHarmless done cancelled (answered (err f) ∷ ts) n (e, es) (q, qs) =
      let over = n (e q.0) in absurd (ground (arith, q.1))

  -- At most eight consent checks are in flight at any moment, in every order of the goroutines' moves,
  -- and the channel that limits them holds exactly as many values as there are checks in flight.
  pub in_flight_bounded :
      (claims : List OwnerClaim) (s : Checks)
      → Run answers ctx consumer claims (start claims) s
      → (in_flight s.tasks ≤ 8) × (s.slots ≡ in_flight s.tasks)
  in_flight_bounded claims s run =
      let v = Run-IsReachable answers ctx consumer claims run in
      (omega (arith, v.counted, v.bounded), v.counted)

  module _ (cfg : Config) (key : String) where
    -- An owner who refused is final: if one check was answered with deny, the response is denied, in
    -- every order of the goroutines' moves, whatever failed besides, and also under fail_open.
    pub refusal_wins :
        (claims : List OwnerClaim) (s : Checks)
        → Run answers ctx consumer claims (start claims) s
        → Some IsRefusal s.tasks
        → (verdict cfg key ctx consumer claims s).decision ≡ deny
    unfolding verdict reduce_owner_results
    refusal_wins claims s run refused =
        let v = Run-IsReachable answers ctx consumer claims run in
        let (o, found) =
          refusal_found cfg key ctx consumer claims s.tasks
            (same_length _ claims s.tasks v.possible) refused in
        let d = deny_is_deny cfg key ctx consumer claims s.tasks o found in ground arith

    -- Once every goroutine has returned, an allow has one of three grounds: every claim was checked
    -- and answered with allow; or fail_open is set, and a check failed by an outage; or the phase
    -- ran out of time, a check was not made for that reason, and those made were answered with allow.
    pub verdict-allow :
        (claims : List OwnerClaim) (s : Checks)
        → Run answers ctx consumer claims (start claims) s
        → All IsSettled s.tasks
        → (verdict cfg key ctx consumer claims s).decision ≡ allow
        → All (Allowed answers ctx consumer) claims
          ⊎ ((is_fail_open cfg ≡ true) × Some IsOutage s.tasks)
          ⊎ ((s.expired ≡ true) × Some IsSkipped s.tasks × All IsHarmless s.tasks)
    unfolding verdict reduce_owner_results
    verdict-allow claims s run settled h =
        let v = Run-IsReachable answers ctx consumer claims run in
        let results = results_of key ctx consumer claims s.tasks in
        elim (Option-cases (first_deny results)) [
          | inr (o, e) ↦
              let d = deny_is_deny cfg key ctx consumer claims s.tasks o e in ground arith
          | inl no_deny ↦ elim (Option-cases (first_error cfg key s.expired results)) [
            | inr (o, e) ↦ inr (
                inl
                  (error_is_fail cfg key ctx consumer s.expired claims s.tasks o e (ground arith)))
            | inl no_error ↦ released v (
                all-IsQuiet cfg key ctx consumer s.expired claims s.tasks
                  (same_length _ claims s.tasks v.possible) settled no_deny no_error)
          ]
        ]
      where
        released :
            IsReachable answers ctx consumer claims s
            → All (IsQuiet s.expired) s.tasks
            → All (Allowed answers ctx consumer) claims
              ⊎ ((is_fail_open cfg ≡ true) × Some IsOutage s.tasks)
              ⊎ ((s.expired ≡ true) × Some IsSkipped s.tasks × All IsHarmless s.tasks)
        released v quiet =
            let uncancelled =
              λ (c : s.cancelled ≡ true). absurd (not_quiet s.expired s.tasks quiet (v.cause c)) in
            let safe = quiet-IsHarmless s.expired s.cancelled s.tasks uncancelled v.echoes quiet in
            elim (harmless _ claims s.tasks v.possible safe) [
              | inl all ↦ inl all
              | inr (some_skipped, stopped) ↦
                  inr (inr (time_over uncancelled stopped, some_skipped, safe))
            ]
          where
            time_over :
                (s.cancelled ≡ true → s.expired ≡ true)
                → (s.cancelled || s.expired) ≡ true
                → s.expired ≡ true
            time_over n h = ground arith
