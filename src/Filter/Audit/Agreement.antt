-- ===== src/Filter/Audit/Agreement.antt =====
-- The audit log and the enforced decision.
use mathlib.Core.Path.{subst}
use consent_plugin.Common.{
  ℕ, String, ◌≡◌, sym, inl, inr, List, [], ◌∷◌, arith, ◌==◌, Bool-cases, Option-cases, List-cases,
  Some, All,
}
use consent_plugin.Failure.{Result, ok, err}
use consent_plugin.Context.{RequestContext}
use consent_plugin.Config.{Config}
use consent_plugin.Consent.{allow, deny, ConsentRequest, ConsentResponse}
use consent_plugin.Filter.{CheckedOwner, ResponseOutcome, OwnerClaim}
use consent_plugin.Filter.Owners.{
  Task, waiting, running, skipped, answered, Checks, start, Run, results_of, result_of,
  checked_owners, first_deny, first_error, reduce_owner_results, verdict,
}
use consent_plugin.Filter.Owners.Reduction.{IsRefusal, allows-cases}
use consent_plugin.Filter.Owners.Verdict.{refusal_wins}
use consent_plugin.Audit.{Event}
use consent_plugin.Filter.Audit.{owner_events, record_audit}

abbrev pub IsAllowed : CheckedOwner → Type 0
IsAllowed c = c.decision ≡ allow

module _ (key : String) (ctx : RequestContext) (consumer : String) where
  checked-IsAllowed :
      (claims : List OwnerClaim) (tasks : List Task)
      → (¬ Some IsRefusal tasks)
      → All IsAllowed (checked_owners (results_of key ctx consumer claims tasks))
  unfolding checked_owners results_of result_of
  checked-IsAllowed [] ts h = tt
  checked-IsAllowed (c ∷ cs) [] h = tt
  checked-IsAllowed (c ∷ cs) (waiting ∷ ts) h = checked-IsAllowed cs ts (λ s. h (inr s))
  checked-IsAllowed (c ∷ cs) (running ∷ ts) h = checked-IsAllowed cs ts (λ s. h (inr s))
  checked-IsAllowed (c ∷ cs) (skipped ∷ ts) h = checked-IsAllowed cs ts (λ s. h (inr s))
  checked-IsAllowed (c ∷ cs) (answered (err f) ∷ ts) h = checked-IsAllowed cs ts (λ s. h (inr s))
  checked-IsAllowed (c ∷ cs) (answered (ok resp) ∷ ts) h =
      let later = checked-IsAllowed cs ts (λ s. h (inr s)) in
      elim (allows-cases resp.decision) [
        | inr d ↦ absurd (h (inl d))
        | inl a ↦ elim (Bool-cases (c.owner == "")) [ inl e ↦ rw e later | inr e ↦ rw e (a, later) ]
      ]

verdict-checked :
    (cfg : Config) (key : String) (ctx : RequestContext) (consumer : String)
    (claims : List OwnerClaim) (s : Checks)
    → (verdict cfg key ctx consumer claims s).checked
      ≡ checked_owners (results_of key ctx consumer claims s.tasks)
unfolding verdict reduce_owner_results
verdict-checked cfg key ctx consumer claims s =
    let results = results_of key ctx consumer claims s.tasks in
    elim (Option-cases (first_deny results)) [
      | inr (o, e) ↦ ground arith
      | inl e ↦ elim (Option-cases (first_error cfg key s.expired results)) [
        | inr (o, e') ↦ ground arith
        | inl e' ↦ ground arith
      ]
    ]

events-allow :
    (now : ℕ) (o : ResponseOutcome) (cs : List CheckedOwner)
    → All IsAllowed cs
    → All (λ (e : Event). e.decision ≡ allow) (owner_events now o cs)
unfolding owner_events
events-allow now o [] h = tt
events-allow now o (c ∷ cs) (p, h) = (p, events-allow now o cs h)

logged-allow :
    (now : ℕ) (cfg : Config) (o : ResponseOutcome)
    → o.decision ≡ allow
    → All IsAllowed o.checked
    → All (λ (e : Event). e.decision ≡ allow) (record_audit now cfg o)
unfolding record_audit
logged-allow now cfg o a all = elim (Bool-cases cfg.audit_enabled) [
  | inr off ↦ rw off tt
  | inl on ↦ elim (List-cases o.checked) [
    | inl e ↦ rw (on, e) (a, tt)
    | inr (c, cs, e) ↦ rw (on, e) (events-allow now o (c ∷ cs) (subst (All IsAllowed) e all))
  ]
]

-- The log never contradicts an allow: no event of a released response names an owner who refused, in
-- whatever order the checks ended and whatever the fail policy.
pub record_audit-agrees :
    (answers : ConsentRequest → Result ConsentResponse → Type 0) (now : ℕ) (cfg : Config)
    (key : String) (ctx : RequestContext) (consumer : String) (claims : List OwnerClaim)
    (s : Checks)
    → Run answers ctx consumer claims (start claims) s
    → (verdict cfg key ctx consumer claims s).decision ≡ allow
    → All
        (λ (e : Event). e.decision ≡ allow)
        (record_audit now cfg (verdict cfg key ctx consumer claims s))
record_audit-agrees answers now cfg key ctx consumer claims s run a =
    let no_refusal = λ (r : Some IsRefusal s.tasks).
      refused (refusal_wins answers ctx consumer cfg key claims s run r) in
    logged-allow now cfg (verdict cfg key ctx consumer claims s) a (
      subst (All IsAllowed) (sym (verdict-checked cfg key ctx consumer claims s))
        (checked-IsAllowed key ctx consumer claims s.tasks no_refusal))
  where
    refused : (verdict cfg key ctx consumer claims s).decision ≡ deny → ⊥
    refused d = ground arith
