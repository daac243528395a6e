-- ===== src/Filter/Examples.antt =====
-- The resolver's claims at concrete inputs.
use consent_plugin.Common.{◌≡◌, refl, true, List, [], ◌∷◌, String}
use consent_plugin.Failure.{ok}
use consent_plugin.Config.{Config}
use consent_plugin.Config.Examples.{given}
use consent_plugin.Resolver.{Claim}
use consent_plugin.Filter.{OwnerClaim, distinct_claims, distinct_from}
use consent_plugin.Filter.Claims.{IsDigest, distinct_claims-IsDigest}

abbrev named : String → String → Claim
named owner purpose = record { owner_id = owner; data_resource = "/data"; purpose = purpose }

abbrev kept : String → String → OwnerClaim
kept owner purpose = record { owner = owner; data_resource = "/data"; purpose = purpose }

abbrev repeated : List Claim
repeated = named "alice" "audit" ∷ named "bob" "" ∷ named "alice" "sale" ∷ []

-- A pair named for two purposes is kept for the first of them.
repeated_digest : distinct_claims repeated ≡ ok (kept "alice" "audit" ∷ kept "bob" "" ∷ [])
unfolding distinct_claims distinct_from
repeated_digest = refl

distinct_claims-IsDigest_example : IsDigest repeated (kept "alice" "audit" ∷ kept "bob" "" ∷ [])
distinct_claims-IsDigest_example =
    distinct_claims-IsDigest repeated (kept "alice" "audit" ∷ kept "bob" "" ∷ []) repeated_digest

abbrev strict : Config
strict = record given { require_purpose = true }
