-- ===== src/Filter.antt =====
-- internal/plugin/consent.go: the outcome of a response, the fail policy, and the claims that the
-- owner resolver made about the payload.
pub mod Claims
pub mod Owners
pub mod Phase
pub mod Gate
pub mod Audit
pub mod Denial
pub mod Enforcement
pub mod Metering
pub mod Passage
mod Examples
use consent_plugin.Common.{
  String, Bool, true, false, ◌&&◌, ◌||◌, Option, none, some, List, [], ◌∷◌, ◌==◌, if◌then◌else◌,
}
use consent_plugin.Failure.{Failure, no_credentials, not_registered, Result, ok, err, plain}
use consent_plugin.Config.{Config, is_fail_open}
use consent_plugin.Consent.{Decision, allow, deny, ConsentRequest}
use consent_plugin.Resolver.{Claim}

-- one data owner's decision within a response
pub record CheckedOwner : Type 0 where
  pub subject : String
  pub resource : String
  pub decision : Decision
  pub reason : String

-- `responseOutcome`; `fail_mode` is "" for an ordinary verdict.
pub record ResponseOutcome : Type 0 where
  pub decision : Decision
  pub reason : String
  pub request_id : String
  pub subject : String
  pub resource : String
  pub method : String
  pub checked : List CheckedOwner
  pub fail_mode : String

pub data FailMode : Type 0 where
  by_policy always_closed : FailMode

-- failMode.String
abbrev pub show_mode : FailMode → String
show_mode by_policy = "by_policy"
show_mode always_closed = "always_closed"

abbrev pub is_by_policy : FailMode → Bool
is_by_policy by_policy = true
is_by_policy always_closed = false

abbrev pub subject_of : Option ConsentRequest → String
subject_of none = ""
subject_of (some req) = req.subject

abbrev pub resource_of : Option ConsentRequest → String
resource_of none = ""
resource_of (some req) = req.resource

abbrev pub method_of : Option ConsentRequest → String
method_of none = ""
method_of (some req) = req.method

-- failOutcome
unfoldable pub fail_outcome :
    Config → FailMode → String → String → Option ConsentRequest → ResponseOutcome
fail_outcome cfg mode reason request_id req = record {
  decision = if is_by_policy mode && is_fail_open cfg then allow else deny;
  reason = reason;
  request_id = request_id;
  subject = subject_of req;
  resource = resource_of req;
  method = method_of req;
  checked = [];
  fail_mode = show_mode mode;
}

-- failModeForError
unfoldable pub fail_mode_for_error : Failure → FailMode
fail_mode_for_error f = elim f.cause [
  | no_credentials ↦ always_closed
  | not_registered ↦ always_closed
  | _ ↦ by_policy
]

-- ownerClaim
pub record OwnerClaim : Type 0 where
  pub owner : String
  pub data_resource : String
  pub purpose : String

abbrev pub owner_claim : Claim → OwnerClaim
owner_claim claim = record {
  owner = claim.owner_id;
  data_resource = claim.data_resource;
  purpose = claim.purpose;
}

abbrev pub was_seen : String → String → List (String × String) → Bool
was_seen owner resource [] = false
was_seen owner resource ((o, r) ∷ seen) =
    ((o == owner) && (r == resource)) || was_seen owner resource seen

abbrev pub prepend : OwnerClaim → Result (List OwnerClaim) → Result (List OwnerClaim)
prepend c (ok rest) = ok (c ∷ rest)
prepend c (err f) = err f

-- the loop of distinctClaims, after the pairs `seen`
unfoldable pub distinct_from : List (String × String) → List Claim → Result (List OwnerClaim)
distinct_from seen [] = ok []
distinct_from seen (claim ∷ rest) =
    let again = distinct_from seen rest in
    let first = distinct_from ((claim.owner_id, claim.data_resource) ∷ seen) rest in
    if claim.owner_id == ""
    then err (plain "resolved claim without a data owner")
    else if was_seen claim.owner_id claim.data_resource seen
    then again
    else prepend (owner_claim claim) first

unfoldable pub distinct_claims : List Claim → Result (List OwnerClaim)
unfolding distinct_from
distinct_claims claims = distinct_from [] claims

-- checkPurposeScoping, none where the check may go on
unfoldable pub check_purpose_scoping : Config → String → List OwnerClaim → Option ResponseOutcome
check_purpose_scoping cfg key [] = none
check_purpose_scoping cfg key (claim ∷ rest) =
    let later = check_purpose_scoping cfg key rest in
    if (claim.purpose == "") && cfg.require_purpose
    then some
        (fail_outcome cfg always_closed "resolved claim without a processing purpose" key none)
    else later

-- resourceOrPath
unfoldable pub resource_or_path : String → String → String
resource_or_path data_resource path = if data_resource == "" then path else data_resource
