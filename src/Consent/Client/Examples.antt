-- ===== src/Consent/Client/Examples.antt =====
-- The consent check at concrete services.
use consent_plugin.Common.{String, ◌≡◌, ◌≢◌, refl}
use consent_plugin.Common.Map.{get, put}
use consent_plugin.Common.Text.{trim_right, join}
use consent_plugin.Failure.{ok, err}
use consent_plugin.Json.Decode.{
  into_struct, into_members, names_field, fold_code, into_string, into_slice, into_items,
}
use consent_plugin.Runtime.{World, read_clock, exchange}
use consent_plugin.Runtime.Sample.{sample, fresh}
use consent_plugin.Consent.{ConsentRequest}
use consent_plugin.Consent.Record.{
  decode_consents, set_consents, set_record, into_participant_ref, any_granted, granted_to, matches,
  covers_purpose, covers_resource,
}
use consent_plugin.Consent.Cache.{
  Client, seconds, endpoint, cache_key, identifier_cache_key, hash_secret,
}
use consent_plugin.Consent.Client.{
  new_request, do_request, status_ok, unmarshal, decode_one, set_one, no_credentials_configured,
}
use consent_plugin.Consent.Client.Credentials.{credentials}
use consent_plugin.Consent.Client.Check.{
  cached_identifier, remember_identifier, identifier_reply, search_identifier,
  resolve_user_identifier, has_granted_consent, check_identified, check, retry_check, check_consent,
  approval,
}
use consent_plugin.Consent.Client.Registry.{participant_self_description_by_did}
use consent_plugin.Consent.Client.Soundness.{Approved, check_consent-Approved}
use consent_plugin.Consent.Client.Traffic.{MakesAtMost, check_consent-MakesAtMost}
use consent_plugin.Consent.Client.Errors.{unconfigured_fails}

abbrev pub client : Client
client = record {
  base_url = "http://consent/";
  host = "";
  api_prefix = "/v1";
  consent_key = "";
  provider_sd = "http://me";
  static_token = "token";
  token_service_url = "";
  token_audience = "";
  token_ttl = seconds 3000;
  timeout_ms = 5000;
}

abbrev unconfigured_client : Client
unconfigured_client = record client { static_token = "" }

abbrev pub request : ConsentRequest
request = record {
  subject = "alice";
  resource = "/path";
  method = "GET";
  data_resource = "";
  consumer = "http://consumer";
  purpose = "";
}

abbrev pub after : World
after = (check_consent sample client request fresh).1

pub approved : check_consent sample client request fresh ≡ (ok approval, after)
unfolding check_consent retry_check check credentials resolve_user_identifier cached_identifier
    search_identifier identifier_reply remember_identifier has_granted_consent check_identified
    new_request do_request status_ok unmarshal decode_one set_one decode_consents set_consents
    set_record into_participant_ref into_struct into_members names_field fold_code into_string
    into_slice into_items any_granted granted_to matches covers_purpose covers_resource endpoint
    trim_right join cache_key identifier_cache_key hash_secret get put read_clock exchange
approved = refl

check_consent-Approved_example : Approved sample client request fresh after
check_consent-Approved_example =
    check_consent-Approved sample client request fresh after approval approved refl

check_consent-MakesAtMost_example : MakesAtMost 8 (check_consent sample client request) fresh
check_consent-MakesAtMost_example = check_consent-MakesAtMost sample client request fresh

unconfigured_fails_example :
    (check_consent sample unconfigured_client request fresh
      ≡ (err no_credentials_configured, fresh))
    × (participant_self_description_by_did sample unconfigured_client "did:bob" fresh
        ≡ (err no_credentials_configured, fresh))
unfolding get
unconfigured_fails_example =
    unconfigured_fails sample unconfigured_client request "did:bob" fresh refl refl alice consumer
      bob refl
  where
    alice : ◌≢◌ {A = String} "alice" ""
    alice e = cc

    bob : ◌≢◌ {A = String} "did:bob" ""
    bob e = cc

    consumer : ◌≢◌ {A = String} "http://consumer" ""
    consumer e = cc
