-- ===== src/Filter/Owners.antt =====
-- internal/plugin/consent.go, `checkOwners` and `reduceOwnerResults`: one goroutine for each claim,
-- eight of them at most inside a consent check at a time. The goroutines are a step relation: a step
-- is one goroutine's move, or the end of the phase's time, and any step that is enabled may be next.
pub mod Progress
pub mod Reduction
pub mod Verdict
pub mod Expiry
pub mod Termination
mod Examples
use consent_plugin.Common.{
  ℕ, zero, suc, ◌+◌, ◌<◌, String, ◌≡◌, Bool, true, false, not, ◌&&◌, ◌||◌, Option, none, some, List,
  [], ◌∷◌, ◌==◌, if◌then◌else◌, map, get_elem?,
}
use consent_plugin.Common.Text.{◌<>◌}
use consent_plugin.Failure.{Failure, Result, ok, err, is_canceled}
use consent_plugin.Context.{RequestContext}
use consent_plugin.Config.{Config}
use consent_plugin.Consent.{Decision, allow, deny, ConsentRequest, ConsentResponse}
use consent_plugin.Filter.{
  CheckedOwner, ResponseOutcome, OwnerClaim, resource_or_path, fail_outcome, fail_mode_for_error,
}

abbrev pub max_concurrent_consent_checks : ℕ
max_concurrent_consent_checks = 8

-- A goroutine: before its `select`, inside its consent check, returned from the `select` because the
-- context was done, or finished with what CheckConsent returned.
pub data Task : Type 0 where
  waiting running skipped : Task
  answered : Result ConsentResponse → Task

-- The goroutines in the order of their claims, whether a problem has cancelled checksCtx, and whether
-- the time of the phase is over (then checksCtx is done as well, being a child);
-- `slots` is the number of values in the channel of that name.
pub record Checks : Type 0 where
  pub tasks : List Task
  pub slots : ℕ
  pub cancelled : Bool
  pub expired : Bool

abbrev wait : OwnerClaim → Task
wait c = waiting

unfoldable pub start : List OwnerClaim → Checks
start claims = record { tasks = map wait claims; slots = 0; cancelled = false; expired = false }

-- the goroutines inside their consent checks
unfoldable pub in_flight : List Task → ℕ
in_flight [] = 0
in_flight (running ∷ rest) = suc (in_flight rest)
in_flight (_ ∷ rest) = in_flight rest

abbrev pub set_task : ℕ → Task → List Task → List Task
set_task i t [] = []
set_task zero t (u ∷ rest) = t ∷ rest
set_task (suc i) t (u ∷ rest) = u ∷ set_task i t rest

abbrev pub allows : Decision → Bool
allows allow = true
allows deny = false

-- `results[i].problem`
abbrev pub is_problem : Result ConsentResponse → Bool
is_problem (ok resp) = not (allows resp.decision)
is_problem (err f) = true

-- The consent request of a claim.
abbrev pub request_for : RequestContext → String → OwnerClaim → ConsentRequest
request_for ctx consumer c = record {
  subject = c.owner;
  resource = ctx.path;
  method = ctx.method;
  data_resource = c.data_resource;
  consumer = consumer;
  purpose = c.purpose;
}

-- A goroutine enters its check by sending to `slots`, which can be done while the channel is not full,
-- and leaves it by receiving from there, which can be done while it is not empty.
-- `answers req r` says that CheckConsent may return `r` to `req`. A call fails with context.Canceled
-- only after cancelChecks: the other end of its context, the deadline, is context.DeadlineExceeded.
pub data Step (answers : ConsentRequest → Result ConsentResponse → Type 0) (ctx : RequestContext)
    (consumer : String) (claims : List OwnerClaim) : Checks → Checks → Type 0 where
  expire : {s : Checks} → Step answers ctx consumer claims s (record s { expired = true })
  enter :
      {s : Checks} (i : ℕ)
      → get_elem? s.tasks i ≡ some waiting
      → s.slots < max_concurrent_consent_checks
      → Step answers ctx consumer claims s
          (record s { tasks = set_task i running s.tasks; slots = s.slots + 1 })
  skip :
      {s : Checks} (i : ℕ)
      → get_elem? s.tasks i ≡ some waiting
      → (s.cancelled || s.expired) ≡ true
      → Step answers ctx consumer claims s (record s { tasks = set_task i skipped s.tasks })
  finish :
      {s : Checks} (i : ℕ) (c : OwnerClaim) (r : Result ConsentResponse) (n : ℕ)
      → get_elem? s.tasks i ≡ some running
      → s.slots ≡ suc n
      → get_elem? claims i ≡ some c
      → answers (request_for ctx consumer c) r
      → ((f : Failure) → r ≡ err f → is_canceled f ≡ true → s.cancelled ≡ true)
      → Step answers ctx consumer claims s (record s {
        tasks = set_task i (answered r) s.tasks;
        slots = n;
        cancelled = s.cancelled || is_problem r;
      })

pub data Run (answers : ConsentRequest → Result ConsentResponse → Type 0) (ctx : RequestContext)
    (consumer : String) (claims : List OwnerClaim) : Checks → Checks → Type 0 where
  done : {s : Checks} → Run answers ctx consumer claims s s
  then :
      {s t u : Checks}
      → Run answers ctx consumer claims s t
      → Step answers ctx consumer claims t u
      → Run answers ctx consumer claims s u

-- ownerCheckResult. The zero value of an owner that was not attempted has `problem` false.
pub record OwnerCheckResult : Type 0 where
  pub outcome : ResponseOutcome
  pub error : Option Failure
  pub request : ConsentRequest
  pub checked_owner : CheckedOwner
  pub problem : Bool
  pub attempted : Bool

abbrev no_outcome : ResponseOutcome
no_outcome = record {
  decision = deny;
  reason = "";
  request_id = "";
  subject = "";
  resource = "";
  method = "";
  checked = [];
  fail_mode = "";
}

abbrev no_record : CheckedOwner
no_record = record { subject = ""; resource = ""; decision = deny; reason = "" }

module _ (key : String) (ctx : RequestContext) (consumer : String) where
  -- what the goroutine of a claim leaves in `results[i]`
  unfoldable pub result_of : OwnerClaim → Task → OwnerCheckResult
  unfolding resource_or_path
  result_of c (answered (err f)) = record {
    outcome = no_outcome;
    error = some f;
    request = request_for ctx consumer c;
    checked_owner = no_record;
    problem = true;
    attempted = true;
  }
  result_of c (answered (ok resp)) =
      let resource = resource_or_path c.data_resource ctx.path in
      let entry : CheckedOwner = record {
        subject = c.owner;
        resource = resource;
        decision = resp.decision;
        reason = resp.reason;
      } in
      let denied : ResponseOutcome = record {
        decision = deny;
        reason = resp.reason;
        request_id = key;
        subject = c.owner;
        resource = resource;
        method = ctx.method;
        checked = [];
        fail_mode = "";
      } in
      record {
        outcome = if allows resp.decision then no_outcome else denied;
        error = none;
        request = request_for ctx consumer c;
        checked_owner = entry;
        problem = not (allows resp.decision);
        attempted = true;
      }
  result_of c _ = record {
    outcome = no_outcome;
    error = none;
    request = request_for ctx consumer c;
    checked_owner = no_record;
    problem = false;
    attempted = false;
  }

  unfoldable pub results_of : List OwnerClaim → List Task → List OwnerCheckResult
  unfolding result_of
  results_of (c ∷ cs) (t ∷ ts) = result_of c t ∷ results_of cs ts
  results_of _ _ = []

-- the first loop of reduceOwnerResults
unfoldable pub checked_owners : List OwnerCheckResult → List CheckedOwner
checked_owners [] = []
checked_owners (r ∷ rest) =
    let later = checked_owners rest in
    if r.attempted && not (r.checked_owner.subject == "") then r.checked_owner ∷ later else later

abbrev no_error : Option Failure → Bool
no_error none = true
no_error (some f) = false

-- the second loop: the first deny
unfoldable pub first_deny : List OwnerCheckResult → Option ResponseOutcome
first_deny [] = none
first_deny (r ∷ rest) =
    let later = first_deny rest in
    if r.attempted && (r.problem && no_error r.error) then some r.outcome else later

module _ (cfg : Config) (key : String) (phase_done : Bool) where
  -- the third loop: the first failure that is not the cancellation by a sibling
  unfoldable pub first_error : List OwnerCheckResult → Option ResponseOutcome
  first_error [] = none
  first_error (r ∷ rest) =
      let later = first_error rest in
      if not r.attempted then later else elim r.error [
        | none ↦ later
        | some f ↦
            if is_canceled f && not phase_done
            then later
            else some (
                fail_outcome cfg (fail_mode_for_error f) ("consent check error: " <> f.text) key
                  (some r.request))
      ]

-- reduceOwnerResults; `phase_done` says that phaseErr is not nil
unfoldable pub reduce_owner_results :
    Config → String → RequestContext → Bool → List OwnerCheckResult → ResponseOutcome
unfolding checked_owners first_deny first_error
reduce_owner_results cfg key ctx phase_done results =
    let checked = checked_owners results in
    elim (first_deny results) [
      | some outcome ↦ record outcome { checked = checked }
      | none ↦ elim (first_error cfg key phase_done results) [
        | some outcome ↦ record outcome { checked = checked }
        | none ↦ record {
          decision = allow;
          reason = "";
          request_id = key;
          subject = "";
          resource = ctx.path;
          method = ctx.method;
          checked = checked;
          fail_mode = "";
        }
      ]
    ]

-- what `checkOwners` returns once every goroutine is done
unfoldable pub verdict :
    Config → String → RequestContext → String → List OwnerClaim → Checks → ResponseOutcome
unfolding results_of reduce_owner_results
verdict cfg key ctx consumer claims s =
    reduce_owner_results cfg key ctx s.expired (results_of key ctx consumer claims s.tasks)
