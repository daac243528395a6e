-- ===== src/Filter/Passage/Examples.antt =====
-- A response with one owner, who consented, from its arrival to its passing.
use consent_plugin.Common.{
  ℕ, ◌<◌, ◌≡◌, refl, false, none, List, [], ◌∷◌, arith, ◌==◌, if◌then◌else◌,
}
use consent_plugin.Common.Int.{pos, times64}
use consent_plugin.Common.Lexicographic.{by_codes}
use consent_plugin.Common.Map.{get, put, delete}
use consent_plugin.Common.Text.{split, cut, join}
use consent_plugin.Failure.{ok}
use consent_plugin.Json.{items, to_map, add_members}
use consent_plugin.Json.Decode.{
  into_struct, into_members, names_field, fold_code, into_string, into_bool, into_slice, into_items,
}
use consent_plugin.Runtime.{World, read_clock, exchange}
use consent_plugin.Runtime.Sample.{sample, fresh}
use consent_plugin.Config.{Config, is_fail_open}
use consent_plugin.Config.Examples.{given}
use consent_plugin.Context.{RequestContext, Store, load_and_delete_request_context, consume}
use consent_plugin.ClaimPath.{
  parse_claim_segment, follow_segment, follow_name, claim_of, follow_indices, descend_into_object,
  walk, consumer_from_claims,
}
use consent_plugin.ClaimPath.Examples.{token}
use consent_plugin.Consent.Cache.{new_client, participant_cache_key, cache_key, hash_secret}
use consent_plugin.Consent.Client.{new_request}
use consent_plugin.Consent.Client.Check.{approval}
use consent_plugin.Consent.Client.Credentials.{credentials, provider_self_description}
use consent_plugin.Consent.Client.Examples.{client, after, approved}
use consent_plugin.Consent.Client.Registry.{cached_participant, participant_self_description_by_did}
use consent_plugin.Metrics.{no_metrics}
use consent_plugin.Resolver.{
  resolve, resolution_of, decode_resolution, set_resolution, set_claim, into_claim,
}
use consent_plugin.Filter.{
  OwnerClaim, ResponseOutcome, distinct_claims, distinct_from, check_purpose_scoping,
}
use consent_plugin.Filter.Enforcement.{response_filter, denial_of}
use consent_plugin.Filter.Enforcement.Examples.{headers, show_sample}
use consent_plugin.Filter.Owners.{
  Task, Checks, start, max_concurrent_consent_checks, enter, finish, Run, done, verdict,
  reduce_owner_results, results_of, result_of, first_deny, first_error, checked_owners,
}
use consent_plugin.Filter.Gate.{Answers}
use consent_plugin.Filter.Phase.{
  Response, Verdict, to_check, client_config_from_cfg, correlation_key, after_resolve, capped,
  identify, response_content_type, evaluate_with_resolver, evaluate,
}
use consent_plugin.Filter.Passage.{
  context_of, client_of, Concludes, by_checks, Justified, passed-Justified,
}

abbrev route : Config
route = record given {
  consent_api_url = "http://consent/";
  consent_api_prefix = "/v1";
  consent_api_timeout = pos 5000;
  provider_sd = "http://me";
  participant_token = "token";
  participant_token_ttl = pos 3000;
  owner_resolver_url = "http://resolver";
  consumer_claim = "verifiableCredential.issuer";
  max_resolve_body_bytes = pos 1000;
  max_owners_per_response = pos 50;
}

-- the registry's answer for the consumer is cached
abbrev known : World
known = record fresh {
  participant_sd_cache =
      (
        participant_cache_key sample client "did:carol",
        record { self_description_url = "http://consumer"; expiry = 1000; unknown = false },
      )
      ∷ [];
}

abbrev context : RequestContext
context = record { method = "GET"; path = "/path"; jwt_claims = token }

abbrev store : Store
store = record { entries = ("id", record { ctx = context; stored_at = 5 }) ∷ []; evicted = 0 }

abbrev upstream : Response
upstream = record {
  var_ = λ name. if name == "request_id" then ok "id" else ok "";
  read_body = ok (7 ∷ []);
  get_header = none;
}

abbrev claims : List OwnerClaim
claims = record { owner = "alice"; data_resource = ""; purpose = "" } ∷ []

abbrev result : (Verdict × Store) × World
result = evaluate sample route upstream 10 store known

same_client : client_of sample route ≡ client
unfolding new_client client_config_from_cfg times64
same_client = refl

evaluated :
    result ≡ ((to_check claims "http://consumer", record { entries = []; evicted = 0 }), result.1)
unfolding evaluate correlation_key load_and_delete_request_context consume get delete
    evaluate_with_resolver consumer_from_claims walk follow_segment follow_name follow_indices
    claim_of descend_into_object parse_claim_segment split cut items to_map add_members put identify
    participant_self_description_by_did cached_participant participant_cache_key cache_key
    hash_secret join read_clock provider_self_description credentials resolve new_request exchange
    resolution_of decode_resolution set_resolution set_claim into_claim into_struct into_members
    names_field fold_code into_string into_bool into_slice into_items after_resolve capped
    distinct_claims distinct_from check_purpose_scoping new_client client_config_from_cfg times64
    response_content_type
evaluated = refl

abbrev checked : Checks
checked = record {
  tasks = Task.answered (ok approval) ∷ [];
  slots = 0;
  cancelled = false;
  expired = false;
}

one_slot : (start claims).slots < max_concurrent_consent_checks
unfolding start
one_slot = omega arith

asked :
    Run
      (Answers sample (client_of sample route))
      context
      "http://consumer"
      claims
      (start claims)
      checked
unfolding start new_client client_config_from_cfg times64
asked = Run.then (Run.then done (enter 0 refl one_slot)) (
    finish 0 (record { owner = "alice"; data_resource = ""; purpose = "" }) (ok approval) 0 refl
      refl refl (fresh, after, approved) (λ f e k. cc))

abbrev outcome : ResponseOutcome
outcome = verdict route "id" context "http://consumer" claims checked

concluded :
    Concludes sample route upstream
      (context_of sample route upstream 10 store)
      (to_check claims "http://consumer")
      outcome
unfolding correlation_key load_and_delete_request_context consume get
concluded = by_checks "id" checked refl asked (tt, tt) refl refl

released :
    (response_filter by_codes show_sample headers 10 route outcome ""
      (no_metrics {F = ℕ} {S = ℕ})
      []).written
    ≡ none
unfolding response_filter denial_of verdict reduce_owner_results results_of result_of first_deny
    first_error checked_owners
released = refl

fails_closed : is_fail_open route ≡ false
unfolding is_fail_open
fails_closed = refl

passed-Justified_example :
    Justified sample route upstream 10 store (record { entries = []; evicted = 0 }) known result.1
passed-Justified_example =
    passed-Justified sample route by_codes show_sample headers upstream 10 store
      (record { entries = []; evicted = 0 }) known result.1 (to_check claims "http://consumer")
      outcome "" (no_metrics {F = ℕ} {S = ℕ}) [] evaluated concluded fails_closed released
