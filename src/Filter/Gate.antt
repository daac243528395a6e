-- ===== src/Filter/Gate.antt =====
-- The gate as a whole: the response phase, the owners' checks, and the consent client together.
use consent_plugin.Common.{◌≡◌, inl, inr, String, false, List, [], ◌∷◌, arith, Some, All}
use consent_plugin.Failure.{Result}
use consent_plugin.Runtime.{Runtime, World}
use consent_plugin.Context.{RequestContext}
use consent_plugin.Config.{Config, is_fail_open}
use consent_plugin.Consent.{allow, ConsentRequest, ConsentResponse}
use consent_plugin.Consent.Cache.{Client}
use consent_plugin.Consent.Client.Check.{check_consent}
use consent_plugin.Consent.Client.Soundness.{Approved, check_consent-Approved}
use consent_plugin.Resolver.{Claim, Resolution}
use consent_plugin.Filter.{OwnerClaim}
use consent_plugin.Filter.Claims.{Covers}
use consent_plugin.Filter.Owners.{Checks, start, request_for, Run, verdict}
use consent_plugin.Filter.Owners.Reduction.{IsSettled, Allowed}
use consent_plugin.Filter.Owners.Verdict.{verdict-allow}
use consent_plugin.Filter.Phase.{Response, to_check, after_resolve}
use consent_plugin.Filter.Phase.Release.{after_resolve-covers}

module _ (rt : Runtime) (client : Client) where
  -- What a call of CheckConsent may return, from some state of the caches.
  abbrev pub Answers : ConsentRequest → Result ConsentResponse → Type 0
  Answers req r = (w : World) × (w' : World) × (check_consent rt client req w ≡ (r, w'))

  -- The claim's pair of owner and resource was checked for the consumer, and the check was approved.
  abbrev pub IsConsented : RequestContext → String → Claim → Type 0
  IsConsented ctx consumer k =
      (c : OwnerClaim) × Covers k c
      × ((w : World) × (w' : World) × Approved rt client (request_for ctx consumer c) w w')

  covered :
      (ctx : RequestContext) (consumer : String) (k : Claim) (claims : List OwnerClaim)
      → Some (Covers k) claims
      → All (Allowed Answers ctx consumer) claims
      → IsConsented ctx consumer k
  covered ctx consumer k [] i h = absurd i
  covered ctx consumer k (c ∷ cs) (inl here) ((resp, a, (w, w', e)), hs) = (
    c,
    here,
    (w, w', check_consent-Approved rt client (request_for ctx consumer c) w w' resp e a),
  )
  covered ctx consumer k (c ∷ cs) (inr later) (h, hs) = covered ctx consumer k cs later hs

  all_covered :
      (ctx : RequestContext) (consumer : String) (claims : List OwnerClaim) (ks : List Claim)
      → All (λ k. Some (Covers k) claims) ks
      → All (Allowed Answers ctx consumer) claims
      → All (IsConsented ctx consumer) ks
  all_covered ctx consumer claims [] i h = tt
  all_covered ctx consumer claims (k ∷ ks) (i, is) h =
      (covered ctx consumer k claims i h, all_covered ctx consumer claims ks is h)

  -- The gate holds: where the resolver required consent and the response is released all the same,
  -- with fail_open unset and within the phase's time, CheckConsent approved the pair of owner and
  -- resource of every claim that the resolver made, whatever the order of the goroutines.
  pub released-IsConsented :
      (cfg : Config) (key : String) (ctx : RequestContext) (upstream : Response)
      (consumer asked : String) (result : Resolution) (claims : List OwnerClaim) (s : Checks)
      → after_resolve cfg key ctx consumer result ≡ to_check claims asked
      → Run Answers ctx asked claims (start claims) s
      → All IsSettled s.tasks
      → is_fail_open cfg ≡ false
      → s.expired ≡ false
      → (verdict cfg key ctx asked claims s).decision ≡ allow
      → All (IsConsented ctx asked) result.claims
  released-IsConsented cfg key ctx upstream consumer asked result claims s h run settled closed live
        a =
      let (required, same, digest, capped, purposes) =
        (after_resolve-covers cfg key rt client ctx upstream consumer result).0 claims asked h in
      elim (verdict-allow Answers ctx asked cfg key claims s run settled a) [
        | inl all ↦ all_covered ctx asked claims result.claims digest.complete all
        | inr (inl (open_, outage)) ↦ absurd (ground arith)
        | inr (inr (late, skips, harmless)) ↦ absurd (ground arith)
      ]
