-- ===== src/Token/Examples.antt =====
-- A request with a token, and its response.
use consent_plugin.Common.{
  String, ◌≡◌, ◌≢◌, ◌↔◌, refl, none, some, [], ◌∷◌, arith, ◌==◌, if◌then◌else◌,
}
use consent_plugin.Common.Map.{Map, put}
use consent_plugin.Common.Text.{split, cut, strip_prefix}
use consent_plugin.Failure.{Result, ok}
use consent_plugin.Json.{Value, str, obj, end, member, to_map, add_members}
use consent_plugin.Runtime.Sample.{sample, fresh}
use consent_plugin.Config.{Config}
use consent_plugin.Config.Examples.{given}
use consent_plugin.Context.{Store, empty}
use consent_plugin.Context.Examples.{by_insertion}
use consent_plugin.Context.Invariant.{IsValid, run}
use consent_plugin.ClaimPath.{consumer_from_claims, claim_path_root}
use consent_plugin.ClaimPath.Examples.{carol}
use consent_plugin.Filter.Phase.{
  Response, Verdict, correlation_key, client_config_from_cfg, evaluate_with_resolver, evaluate,
}
use consent_plugin.Consent.Cache.{new_client}
use consent_plugin.Runtime.{World}
use consent_plugin.Token.{
  Decoder, Request, extract_token, all_claims, captured_claims, request_context, request_filter,
}
use consent_plugin.Token.Capture.{captured-consumer, handover}

abbrev claims : Map Value
claims = ("sub", str "alice") ∷ ("credential", carol) ∷ []

abbrev decoder : Decoder
decoder = record {
  decode_base64 = λ text. ok (0 ∷ []);
  parse_json = λ bytes. some (obj (member "sub" (str "alice") (member "credential" carol end)));
}

abbrev config : Config
config = record given {
  consumer_claim = "credential.issuer";
  jwt_claims_to_forward = "email" ∷ [];
  jwt_header_name = "Authorization";
}

abbrev variables : String → Result String
variables name = if name == "request_id" then ok "r1" else ok ""

abbrev request : Request
request = record {
  method = "GET";
  path = "/people/1";
  header = λ name. "Bearer h.p.s";
  var_ = variables;
}

abbrev upstream : Response
upstream = record { var_ = variables; read_body = ok []; get_header = none }

token_found : extract_token "Bearer h.p.s" ≡ ok "h.p.s"
unfolding extract_token strip_prefix
token_found = refl

claims_found : all_claims decoder "h.p.s" ≡ ok claims
unfolding all_claims split to_map add_members put
claims_found = refl

path_given : ◌≢◌ {A = String} "credential.issuer" ""
path_given e = cc

root_given : claim_path_root "credential.issuer" ≢ ""
unfolding claim_path_root split cut
root_given e = cc

captured-consumer_example :
    (consumer_from_claims (captured_claims decoder config "Bearer h.p.s") "credential.issuer"
      ≡ ok "did:carol")
    ↔ (consumer_from_claims claims "credential.issuer" ≡ ok "did:carol")
captured-consumer_example =
    captured-consumer decoder config "Bearer h.p.s" "h.p.s" "did:carol" claims token_found
      claims_found path_given root_given

empty-IsValid : IsValid empty
empty-IsValid = record { distinct = tt; bounded = omega arith }

abbrev held : Store
held = run by_insertion (request_filter by_insertion 10 decoder config request empty) []

handover_example :
    let phase = evaluate sample config upstream 20 held fresh in
    ◌≡◌ {A = Verdict × World}
      (phase.0.0, phase.1)
      (evaluate_with_resolver config "r1" sample
        (new_client (client_config_from_cfg config))
        (request_context decoder config request)
        upstream
        fresh)
unfolding correlation_key
handover_example =
    handover by_insertion sample decoder config request upstream 10 20 "r1" empty [] fresh
      empty-IsValid refl refl tt (omega arith)
