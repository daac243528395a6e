-- ===== src/Filter/Owners/Examples.antt =====
-- Runs of the owners' checks for two owners.
use consent_plugin.Common.{
  ◌≤◌, ◌<◌, String, ◌≡◌, ◌⊎◌, refl, inl, inr, Bool, true, false, some, List, [], ◌∷◌, arith, Some,
  All,
}
use consent_plugin.Failure.{Result, ok, err, plain}
use consent_plugin.Context.{RequestContext}
use consent_plugin.Config.{Config, is_fail_open}
use consent_plugin.Config.Examples.{given}
use consent_plugin.Consent.{allow, deny, ConsentRequest, ConsentResponse}
use consent_plugin.Consent.Client.Check.{approval, denial}
use consent_plugin.Filter.{OwnerClaim}
use consent_plugin.Filter.Owners.{
  Task, Checks, start, in_flight, max_concurrent_consent_checks, Step, enter, finish, Run, done,
  then, verdict, reduce_owner_results, results_of, result_of, first_deny, first_error,
  checked_owners,
}
use consent_plugin.Filter.Owners.Reduction.{IsSettled, IsOutage, Allowed, IsSkipped, IsHarmless}
use consent_plugin.Filter.Owners.Verdict.{in_flight_bounded, refusal_wins, verdict-allow}
use consent_plugin.Audit.{Event}
use consent_plugin.Filter.Audit.{record_audit}
use consent_plugin.Filter.Audit.Agreement.{record_audit-agrees}
use consent_plugin.Filter.Owners.Termination.{moves_left, checks-end}
use consent_plugin.Filter.Owners.Expiry.{expiry_releases}

abbrev context : RequestContext
context = record { method = "GET"; path = "/path"; jwt_claims = [] }

abbrev claim : String → OwnerClaim
claim owner = record { owner = owner; data_resource = ""; purpose = "" }

abbrev claims : List OwnerClaim
claims = claim "alice" ∷ claim "bob" ∷ []

abbrev AnyAnswer : ConsentRequest → Result ConsentResponse → Type 0
AnyAnswer req r = Unit

abbrev Runs : Checks → Type 0
Runs s = Run AnyAnswer context "did:carol" claims (start claims) s

abbrev lenient : Config
lenient = record given { fail_open = some true }

abbrev ended : Result ConsentResponse → Result ConsentResponse → Bool → Checks
ended first second cancelled = record {
  tasks = Task.answered first ∷ Task.answered second ∷ [];
  slots = 0;
  cancelled = cancelled;
  expired = false;
}

one_slot : (start claims).slots < max_concurrent_consent_checks
unfolding start
one_slot = omega arith

one_left : 1 < max_concurrent_consent_checks
one_left = omega arith

-- both owners are asked, and both allow
both_allow : Runs (ended (ok approval) (ok approval) false)
unfolding start
both_allow =
    then
      (then (then (then done (enter 0 refl one_slot)) (enter 1 refl one_left))
        (finish 0 (claim "alice") (ok approval) 1 refl refl refl tt (λ f e k. cc)))
      (finish 1 (claim "bob") (ok approval) 0 refl refl refl tt (λ f e k. cc))

-- the second owner refuses, and the check of the first fails
one_refuses : Runs (ended (err (plain "timeout")) (ok (denial "no")) true)
unfolding start
one_refuses =
    then
      (then (then (then done (enter 0 refl one_slot)) (enter 1 refl one_left)) (
        finish 0 (claim "alice") (err (plain "timeout")) 1 refl refl refl tt
          (λ f e k. ground arith)))
      (finish 1 (claim "bob") (ok (denial "no")) 0 refl refl refl tt (λ f e k. cc))

verdict-allow_example :
    let s = ended (ok approval) (ok approval) false in
    All (Allowed AnyAnswer context "did:carol") claims
    ⊎ ((is_fail_open given ≡ true) × Some IsOutage s.tasks)
    ⊎ ((s.expired ≡ true) × Some IsSkipped s.tasks × All IsHarmless s.tasks)
unfolding verdict reduce_owner_results results_of result_of first_deny first_error checked_owners
verdict-allow_example =
    verdict-allow AnyAnswer context "did:carol" given "id" claims
      (ended (ok approval) (ok approval) false) both_allow (tt, (tt, tt)) refl

refusal_wins_example :
    (verdict lenient "id" context "did:carol" claims
      (ended (err (plain "timeout")) (ok (denial "no")) true)).decision
    ≡ deny
refusal_wins_example =
    refusal_wins AnyAnswer context "did:carol" lenient "id" claims
      (ended (err (plain "timeout")) (ok (denial "no")) true) one_refuses (inr (inl refl))

abbrev both_run : Checks
both_run = record {
  tasks = Task.running ∷ Task.running ∷ [];
  slots = 2;
  cancelled = false;
  expired = false;
}

both_enter : Runs both_run
unfolding start
both_enter = then (then done (enter 0 refl one_slot)) (enter 1 refl one_left)

in_flight_bounded_example :
    (in_flight both_run.tasks ≤ 8) × (both_run.slots ≡ in_flight both_run.tasks)
in_flight_bounded_example =
    in_flight_bounded AnyAnswer context "did:carol" claims both_run both_enter

expiry_releases_example :
    (s : Checks) × Runs s
    × All IsSkipped s.tasks
    × ((verdict given "id" context "did:carol" claims s).decision ≡ allow)
    × ((verdict given "id" context "did:carol" claims s).checked ≡ [])
expiry_releases_example = expiry_releases AnyAnswer context "did:carol" given "id" claims

abbrev audited : Config
audited = record given { audit_enabled = true }

record_audit-agrees_example :
    All
      (λ (e : Event). e.decision ≡ allow)
      (record_audit 7 audited
        (verdict audited "id" context "did:carol" claims (ended (ok approval) (ok approval) false)))
unfolding verdict reduce_owner_results results_of result_of first_deny first_error checked_owners
record_audit-agrees_example =
    record_audit-agrees AnyAnswer 7 audited "id" context "did:carol" claims
      (ended (ok approval) (ok approval) false) both_allow refl

checks-end_example :
    All IsSettled (start claims).tasks
    ⊎ ((s' : Checks) × Step AnyAnswer context "did:carol" claims (start claims) s'
        × (moves_left s'.tasks < moves_left (start claims).tasks))
checks-end_example =
    checks-end AnyAnswer context "did:carol" claims (start claims) (λ req. (ok approval, tt, refl))
      done
