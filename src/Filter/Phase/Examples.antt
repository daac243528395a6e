-- ===== src/Filter/Phase/Examples.antt =====
-- The response phase at concrete services.
use consent_plugin.Common.{◌≡◌, ◌≢◌, refl, true, none, List, [], ◌∷◌, String, All, false, length}
use consent_plugin.Failure.{ok}
use consent_plugin.Runtime.{World}
use consent_plugin.Runtime.Sample.{sample, fresh}
use consent_plugin.Context.{RequestContext}
use consent_plugin.Config.Examples.{filled}
use consent_plugin.ClaimPath.Examples.{token}
use consent_plugin.Consent.{allow}
use consent_plugin.Consent.Cache.{Client, seconds, participant_cache_key}
use consent_plugin.Resolver.{Resolution}
use consent_plugin.Filter.{OwnerClaim, ResponseOutcome}
use consent_plugin.Filter.Claims.{IsDigest}
use consent_plugin.Filter.Phase.{
  Response, Verdict, decided, to_check, after_resolve, evaluate_with_resolver,
}
use consent_plugin.Filter.Phase.Release.{
  Reason, AtMost, evaluate_with_resolver-Reason, after_resolve-covers,
}

abbrev client : Client
client = record {
  base_url = "http://consent/";
  host = "";
  api_prefix = "/v1";
  consent_key = "";
  provider_sd = "http://me";
  static_token = "token";
  token_service_url = "";
  token_audience = "";
  token_ttl = seconds 3000;
  timeout_ms = 5000;
}

-- the registry's answer for the consumer is cached
abbrev known : World
known = record fresh {
  participant_sd_cache =
      (
        participant_cache_key sample client "did:carol",
        record { self_description_url = "http://carol"; expiry = 1000; unknown = false },
      )
      ∷ [];
}

abbrev context : RequestContext
context = record { method = "GET"; path = "/path"; jwt_claims = token }

abbrev upstream : Response
upstream = record { var_ = λ name. ok ""; read_body = ok (7 ∷ []); get_header = none }

abbrev evaluated : Verdict × World
evaluated = evaluate_with_resolver filled "id" sample client context upstream known

evaluate_with_resolver-Reason_example :
    Reason filled "id" sample client context upstream known evaluated.0 evaluated.1
evaluate_with_resolver-Reason_example =
    evaluate_with_resolver-Reason filled "id" sample client context upstream known evaluated.1
      evaluated.0 refl

abbrev resolution : Resolution
resolution = record {
  consent_required = true;
  claims = record { owner_id = "alice"; data_resource = ""; purpose = "" } ∷ [];
}

after_resolve-covers_example :
    ((claims : List OwnerClaim) (consumer : String)
      → after_resolve filled "id" context "http://carol" resolution ≡ to_check claims consumer
      → (resolution.consent_required ≡ true)
        × (consumer ≡ "http://carol")
        × IsDigest resolution.claims claims
        × AtMost (length claims) filled.max_owners_per_response
        × (filled.require_purpose ≡ true → All (λ (k : OwnerClaim). k.purpose ≢ "") claims))
    × ((o : ResponseOutcome)
        → after_resolve filled "id" context "http://carol" resolution ≡ decided o
        → o.decision ≡ allow
        → resolution.consent_required ≡ false)
after_resolve-covers_example =
    after_resolve-covers filled "id" sample client context upstream "http://carol" resolution
