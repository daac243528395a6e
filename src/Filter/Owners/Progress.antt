-- ===== src/Filter/Owners/Progress.antt =====
-- What holds in every state that the goroutines can reach.
use mathlib.Core.Path.{subst}
use mathlib.Core.Option.{some-injective}
use consent_plugin.Common.{
  ℕ, zero, suc, ◌+◌, ◌≤◌, String, ◌≡◌, ◌⊎◌, refl, sym, ◌∙◌, inl, inr, Bool, true, false, ◌||◌, some,
  List, [], ◌∷◌, arith, get_elem?, Bool-cases, Some, All,
}
use consent_plugin.Failure.{Failure, Result, ok, err, is_canceled}
use consent_plugin.Context.{RequestContext}
use consent_plugin.Consent.{ConsentRequest, ConsentResponse}
use consent_plugin.Filter.{OwnerClaim}
use consent_plugin.Filter.Owners.{
  Task, waiting, running, skipped, answered, Checks, start, in_flight, set_task, is_problem,
  max_concurrent_consent_checks, request_for, Step, expire, enter, skip, finish, Run, done, then,
}

-- a failure that a cancelled context made
abbrev pub was_cancelled : Result ConsentResponse → Bool
was_cancelled (ok resp) = false
was_cancelled (err f) = is_canceled f

-- A problem in its own right, not the echo of another's.
abbrev pub IsDecisive : Task → Type 0
IsDecisive (answered r) = (is_problem r ≡ true) × (was_cancelled r ≡ false)
IsDecisive _ = ⊥

module _ (answers : ConsentRequest → Result ConsentResponse → Type 0) (ctx : RequestContext)
    (consumer : String) where
  -- what the task of a claim may be, where the context is done or not
  abbrev pub IsPossible : Bool → OwnerClaim → Task → Type 0
  IsPossible stopped c (answered r) = answers (request_for ctx consumer c) r
  IsPossible stopped c skipped = stopped ≡ true
  IsPossible stopped c _ = Unit

  abbrev pub AllPossible : Bool → List OwnerClaim → List Task → Type 0
  AllPossible stopped [] [] = Unit
  AllPossible stopped (c ∷ cs) (t ∷ ts) = IsPossible stopped c t × AllPossible stopped cs ts
  AllPossible stopped _ _ = ⊥

  abbrev pub Echo : Bool → Task → Type 0
  Echo cancelled (answered r) = was_cancelled r ≡ true → cancelled ≡ true
  Echo cancelled _ = Unit

  pub record IsReachable (claims : List OwnerClaim) (s : Checks) : Type 0 where
    pub possible : AllPossible (s.cancelled || s.expired) claims s.tasks
    pub echoes : All (Echo s.cancelled) s.tasks
    pub cause : s.cancelled ≡ true → Some IsDecisive s.tasks
    pub counted : s.slots ≡ in_flight s.tasks
    pub bounded : s.slots ≤ max_concurrent_consent_checks

  start-possible :
      (claims : List OwnerClaim)
      → AllPossible false claims (start claims).tasks
        × All (Echo false) (start claims).tasks
        × (in_flight (start claims).tasks ≡ 0)
  unfolding start in_flight
  start-possible [] = (tt, tt, refl)
  start-possible (c ∷ cs) = let (p, e, z) = start-possible cs in ((tt, p), (tt, e), z)

  weaken_one :
      (a b : Bool) (c : OwnerClaim) (t : Task)
      → (a ≡ true → b ≡ true)
      → IsPossible a c t
      → IsPossible b c t
  weaken_one a b c waiting h p = tt
  weaken_one a b c running h p = tt
  weaken_one a b c skipped h p = h p
  weaken_one a b c (answered r) h p = p

  weaken :
      (a b : Bool) (cs : List OwnerClaim) (ts : List Task)
      → (a ≡ true → b ≡ true)
      → AllPossible a cs ts
      → AllPossible b cs ts
  weaken a b [] [] h p = tt
  weaken a b [] (t ∷ ts) h p = p
  weaken a b (c ∷ cs) [] h p = p
  weaken a b (c ∷ cs) (t ∷ ts) h (p, ps) = (weaken_one a b c t h p, weaken a b cs ts h ps)

  weaken-Echo :
      (a b : Bool) (ts : List Task) → (a ≡ true → b ≡ true) → All (Echo a) ts → All (Echo b) ts
  weaken-Echo a b [] h e = tt
  weaken-Echo a b (waiting ∷ ts) h (e, es) = (tt, weaken-Echo a b ts h es)
  weaken-Echo a b (running ∷ ts) h (e, es) = (tt, weaken-Echo a b ts h es)
  weaken-Echo a b (skipped ∷ ts) h (e, es) = (tt, weaken-Echo a b ts h es)
  weaken-Echo a b (answered r ∷ ts) h (e, es) = ((λ k. h (e k)), weaken-Echo a b ts h es)

  -- The task at an index gives way to a possible one.
  set-possible :
      (stopped : Bool) (i : ℕ) (t : Task) (cs : List OwnerClaim) (ts : List Task)
      → ((c : OwnerClaim) → get_elem? cs i ≡ some c → IsPossible stopped c t)
      → AllPossible stopped cs ts
      → AllPossible stopped cs (set_task i t ts)
  set-possible stopped i t [] [] h p = tt
  set-possible stopped i t [] (u ∷ ts) h p = absurd p
  set-possible stopped i t (c ∷ cs) [] h p = p
  set-possible stopped zero t (c ∷ cs) (u ∷ ts) h (p, ps) = (h c refl, ps)
  set-possible stopped (suc i) t (c ∷ cs) (u ∷ ts) h (p, ps) =
      (p, set-possible stopped i t cs ts h ps)

  set-All :
      (P : Task → Type 0) (i : ℕ) (t : Task) (ts : List Task)
      → P t
      → All P ts
      → All P (set_task i t ts)
  set-All P i t [] h p = tt
  set-All P zero t (u ∷ ts) h (p, ps) = (h, ps)
  set-All P (suc i) t (u ∷ ts) h (p, ps) = (p, set-All P i t ts h ps)

  -- A decisive task stays: only a waiting or a running one gives way.
  set-Some :
      (i : ℕ) (t u : Task) (ts : List Task)
      → get_elem? ts i ≡ some u
      → (¬ IsDecisive u)
      → Some IsDecisive ts
      → Some IsDecisive (set_task i t ts)
  set-Some i t u [] e h s = absurd s
  set-Some zero t u (v ∷ ts) e h (inl d) = absurd (h (subst IsDecisive (some-injective _ _ e) d))
  set-Some zero t u (v ∷ ts) e h (inr s) = inr s
  set-Some (suc i) t u (v ∷ ts) e h (inl d) = inl d
  set-Some (suc i) t u (v ∷ ts) e h (inr s) = inr (set-Some i t u ts e h s)

  set_here :
      (i : ℕ) (t u : Task) (ts : List Task)
      → get_elem? ts i ≡ some u
      → IsDecisive t
      → Some IsDecisive (set_task i t ts)
  set_here i t u [] e d = ground arith
  set_here zero t u (v ∷ ts) e d = inl d
  set_here (suc i) t u (v ∷ ts) e d = inr (set_here i t u ts e d)

  in_flight_cons :
      (t : Task) (ts : List Task) → in_flight (t ∷ ts) ≡ in_flight (t ∷ []) + in_flight ts
  unfolding in_flight
  in_flight_cons waiting ts = omega arith
  in_flight_cons running ts = omega arith
  in_flight_cons skipped ts = omega arith
  in_flight_cons (answered r) ts = omega arith

  in_flight-set :
      (i : ℕ) (t u : Task) (ts : List Task)
      → get_elem? ts i ≡ some u
      → in_flight (set_task i t ts) + in_flight (u ∷ []) ≡ in_flight ts + in_flight (t ∷ [])
  in_flight-set i t u [] e = ground arith
  in_flight-set zero t u (v ∷ ts) e =
      let same : v ≡ u = some-injective _ _ e in
      rw same (ground (arith, in_flight_cons t ts, in_flight_cons u ts))
  in_flight-set (suc i) t u (v ∷ ts) e =
      ground
        (arith, in_flight-set i t u ts e, in_flight_cons v ts, in_flight_cons v (set_task i t ts))

  one_runs : in_flight (running ∷ []) ≡ 1
  unfolding in_flight
  one_runs = refl

  none_waits : in_flight (waiting ∷ []) ≡ 0
  unfolding in_flight
  none_waits = refl

  none_skips : in_flight (skipped ∷ []) ≡ 0
  unfolding in_flight
  none_skips = refl

  none_answers : (r : Result ConsentResponse) → in_flight (answered r ∷ []) ≡ 0
  unfolding in_flight
  none_answers r = refl

  cancelled_before :
      {b : Bool} (r : Result ConsentResponse)
      → was_cancelled r ≡ true
      → ((f : Failure) → r ≡ err f → is_canceled f ≡ true → b ≡ true)
      → b ≡ true
  cancelled_before (ok resp) k echo = ground arith
  cancelled_before (err f) k echo = echo f refl k

  not_echo :
      {b : Bool} (r : Result ConsentResponse)
      → b ≡ false
      → ((f : Failure) → r ≡ err f → is_canceled f ≡ true → b ≡ true)
      → was_cancelled r ≡ false
  not_echo (ok resp) h echo = refl
  not_echo (err f) h echo = elim (Bool-cases (is_canceled f)) [
    | inl k ↦ let before = echo f refl k in ground arith
    | inr k ↦ k
  ]

  Step-IsReachable :
      (claims : List OwnerClaim) {s s' : Checks}
      → Step answers ctx consumer claims s s'
      → IsReachable claims s
      → IsReachable claims s'
  Step-IsReachable claims {s} expire v = record {
    possible = weaken _ _ claims s.tasks (λ h. ground arith) v.possible;
    echoes = v.echoes;
    cause = v.cause;
    counted = v.counted;
    bounded = v.bounded;
  }
  Step-IsReachable claims {s} (enter i e room) v = record {
    possible = set-possible _ i running claims s.tasks (λ c k. tt) v.possible;
    echoes = set-All (Echo s.cancelled) i running s.tasks tt v.echoes;
    cause = λ h. set-Some i running waiting s.tasks e (λ d. d) (v.cause h);
    counted =
        omega (arith, in_flight-set i running waiting s.tasks e, v.counted, one_runs, none_waits);
    bounded = omega (arith, room);
  }
  Step-IsReachable claims {s} (skip i e stopped) v = record {
    possible = set-possible _ i skipped claims s.tasks (λ c k. stopped) v.possible;
    echoes = set-All (Echo s.cancelled) i skipped s.tasks tt v.echoes;
    cause = λ h. set-Some i skipped waiting s.tasks e (λ d. d) (v.cause h);
    counted =
        omega (arith, in_flight-set i skipped waiting s.tasks e, v.counted, none_waits, none_skips);
    bounded = v.bounded;
  }
  Step-IsReachable claims {s} (finish i c r n e taken placed a echo) v = record {
    possible =
        set-possible _ i (answered r) claims s.tasks
          (λ d k.
            subst (λ d. answers (request_for ctx consumer d) r)
              (some-injective _ _ (sym placed ∙ k)) a)
          (weaken _ _ claims s.tasks (λ h. ground arith) v.possible);
    echoes =
        set-All (Echo (s.cancelled || is_problem r)) i (answered r) s.tasks
          (λ k. let before = cancelled_before r k echo in ground arith)
          (weaken-Echo _ _ s.tasks (λ h. ground arith) v.echoes);
    cause = caused (Bool-cases s.cancelled);
    counted = omega (
      arith,
      in_flight-set i (answered r) running s.tasks e,
      v.counted,
      taken,
      one_runs,
      none_answers r,
    );
    bounded = omega (arith, v.bounded, taken);
  }
    where
      caused :
          (s.cancelled ≡ true) ⊎ (s.cancelled ≡ false)
          → (s.cancelled || is_problem r) ≡ true
          → Some IsDecisive (set_task i (answered r) s.tasks)
      caused (inl before) h = set-Some i (answered r) running s.tasks e (λ d. d) (v.cause before)
      caused (inr first) h =
          set_here i (answered r) running s.tasks e (ground arith, not_echo r first echo)

  -- A goroutine inside its check has a value in the channel.
  pub one_taken :
      (claims : List OwnerClaim) {s : Checks} (i : ℕ)
      → IsReachable claims s
      → get_elem? s.tasks i ≡ some running
      → (n : ℕ) × (s.slots ≡ suc n)
  one_taken claims {s} i v e = (
    in_flight (set_task i waiting s.tasks),
    omega (arith, in_flight-set i waiting running s.tasks e, v.counted, one_runs, none_waits),
  )

  Run-from :
      (claims : List OwnerClaim) {s t : Checks}
      → Run answers ctx consumer claims s t
      → IsReachable claims s
      → IsReachable claims t
  Run-from claims done v = v
  Run-from claims (then run step) v = Step-IsReachable claims step (Run-from claims run v)

  pub Run-IsReachable :
      (claims : List OwnerClaim) {s : Checks}
      → Run answers ctx consumer claims (start claims) s
      → IsReachable claims s
  unfolding start
  Run-IsReachable claims run =
      let (p, e, z) = start-possible claims in
      Run-from claims run (record {
        possible = p;
        echoes = e;
        cause = λ h. ground arith;
        counted = sym z;
        bounded = omega arith;
      })
