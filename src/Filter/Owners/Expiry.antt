-- ===== src/Filter/Owners/Expiry.antt =====
-- The end of the phase's time before any check was made.
use mathlib.Core.Path.{subst}
use consent_plugin.Common.{
  String, ◌≡◌, refl, ap, true, false, some, List, [], ◌∷◌, ◌++◌, get_elem?, length, All,
}
use consent_plugin.Failure.{Result}
use consent_plugin.Context.{RequestContext}
use consent_plugin.Config.{Config}
use consent_plugin.Consent.{allow, ConsentRequest, ConsentResponse}
use consent_plugin.Filter.{OwnerClaim}
use consent_plugin.Filter.Owners.{
  Task, waiting, skipped, Checks, start, set_task, Run, done, then, expire, skip, result_of,
  results_of, first_deny, first_error, checked_owners, reduce_owner_results, verdict,
}
use consent_plugin.Filter.Owners.Reduction.{IsSkipped}

abbrev late : List Task → Checks
late tasks = record { tasks = tasks; slots = 0; cancelled = false; expired = true }

abbrev waits : List OwnerClaim → List Task
waits [] = []
waits (c ∷ cs) = waiting ∷ waits cs

abbrev skips : List OwnerClaim → List Task
skips [] = []
skips (c ∷ cs) = skipped ∷ skips cs

get-next :
    (before : List Task) (t : Task) (after : List Task)
    → get_elem? (before ++ t ∷ after) (length before) ≡ some t
get-next [] t after = refl
get-next (u ∷ before) t after = get-next before t after

set-next :
    (before : List Task) (t u : Task) (after : List Task)
    → set_task (length before) u (before ++ t ∷ after) ≡ (before ++ u ∷ []) ++ after
set-next [] t u after = refl
set-next (v ∷ before) t u after = ap (λ l. v ∷ l) (set-next before t u after)

regroup :
    (before : List Task) (t : Task) (after : List Task)
    → (before ++ t ∷ []) ++ after ≡ before ++ t ∷ after
regroup [] t after = refl
regroup (v ∷ before) t after = ap (λ l. v ∷ l) (regroup before t after)

skips-IsSkipped : (claims : List OwnerClaim) → All IsSkipped (skips claims)
skips-IsSkipped [] = tt
skips-IsSkipped (c ∷ cs) = (tt, skips-IsSkipped cs)

waits-start : (claims : List OwnerClaim) → (start claims).tasks ≡ waits claims
unfolding start
waits-start [] = refl
waits-start (c ∷ cs) = ap (λ l. waiting ∷ l) (waits-start cs)

module _ (answers : ConsentRequest → Result ConsentResponse → Type 0) (ctx : RequestContext)
    (consumer : String) where
  skip_rest :
      {s : Checks} {claims : List OwnerClaim} (before : List Task) (left : List OwnerClaim)
      → Run answers ctx consumer claims s (late (before ++ waits left))
      → Run answers ctx consumer claims s (late (before ++ skips left))
  skip_rest before [] run = run
  skip_rest {s} {claims} before (c ∷ cs) run =
      let next = then run (skip (length before) (get-next before waiting (waits cs)) refl) in
      let moved =
        subst (λ l. Run answers ctx consumer claims s (late l))
          (set-next before waiting skipped (waits cs)) next in
      subst (λ l. Run answers ctx consumer claims s (late l)) (regroup before skipped (skips cs))
        (skip_rest (before ++ skipped ∷ []) cs moved)

  nothing_checked :
      (cfg : Config) (key : String) (claims : List OwnerClaim)
      → let o = verdict cfg key ctx consumer claims (late (skips claims)) in
        (o.decision ≡ allow) × (o.checked ≡ [])
  unfolding verdict reduce_owner_results results_of result_of first_deny first_error checked_owners
  nothing_checked cfg key [] = (refl, refl)
  nothing_checked cfg key (c ∷ cs) = nothing_checked cfg key cs

  -- If the phase's time ends before the goroutines reach their `select`, every one may return there
  -- without making its check, and the response is then allowed, also with fail_open unset: for
  -- all claims there is such a run, it asks no owner's consent, and names no owner as checked.
  pub expiry_releases :
      (cfg : Config) (key : String) (claims : List OwnerClaim)
      → (s : Checks) × Run answers ctx consumer claims (start claims) s
        × All IsSkipped s.tasks
        × ((verdict cfg key ctx consumer claims s).decision ≡ allow)
        × ((verdict cfg key ctx consumer claims s).checked ≡ [])
  unfolding start
  expiry_releases cfg key claims =
      let (a, b) = nothing_checked cfg key claims in
      let begun =
        subst (λ l. Run answers ctx consumer claims (start claims) (late l)) (waits-start claims)
          (then done expire) in
      (late (skips claims), skip_rest [] claims begun, skips-IsSkipped claims, a, b)
