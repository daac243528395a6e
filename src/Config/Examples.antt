-- ===== src/Config/Examples.antt =====
-- A configuration that is accepted, and prefixes at the edge of the trimming.
use consent_plugin.Common.{◌≡◌, refl, false, none, [], ◌∷◌, ◌==◌, if◌then◌else◌}
use consent_plugin.Common.Int.{pos}
use consent_plugin.Common.Text.{trim_right, has_prefix_char}
use consent_plugin.Failure.{ok}
use consent_plugin.Config.{
  Config, Platform, apply_defaults, apply_env, trimmed_prefix, validate, checks, url_ok, in_range,
  first_failure, parse_config,
}
use consent_plugin.Config.Bounds.{parse_config-IsValid, fill-precedence, IsValid}

-- the JSON of a route that names its services and nothing else
abbrev pub given : Config
given = record {
  consent_api_url = "http://consent";
  consent_api_timeout = pos 0;
  jwt_header_name = "";
  jwt_claims_to_forward = [];
  consent_api_prefix = "/api//";
  owner_resolver_url = "http://resolver";
  consent_api_host = "";
  owner_resolver_timeout = pos 0;
  response_phase_timeout = pos 0;
  require_purpose = false;
  max_resolve_body_bytes = pos 0;
  max_owners_per_response = pos 0;
  service = "";
  consumer_claim = "";
  consent_key = "";
  token_service_url = "";
  token_audience = "";
  participant_token_ttl = pos 0;
  participant_token = "";
  provider_sd = "";
  deny_status_code = pos 0;
  deny_response_body = "";
  deny_response_content_type = "";
  fail_open = none;
  audit_enabled = false;
  audit_otlp_endpoint = "";
  audit_otlp_headers = [];
  audit_service_name = "";
}

abbrev platform : Platform
platform = record {
  scheme_of = λ url. ok "http";
  getenv = λ name. if name == "CONSENT_TOKEN_SERVICE_URL" then "http://tokens" else "";
  quote = λ s. s;
  unmarshal_config = λ bytes. ok given;
}

abbrev pub filled : Config
filled = apply_env platform (apply_defaults given)

filled_prefix : filled.consent_api_prefix ≡ "/api"
unfolding apply_defaults apply_env trimmed_prefix trim_right
filled_prefix = refl

accepted : parse_config platform (0 ∷ []) ≡ ok filled
unfolding parse_config validate checks url_ok in_range first_failure apply_defaults apply_env
    trimmed_prefix trim_right has_prefix_char
accepted = refl

parse_config-IsValid_example :
    IsValid platform filled
    × ((c : Config) × (platform.unmarshal_config (0 ∷ []) ≡ ok c)
        × (filled ≡ apply_env platform (apply_defaults c)))
parse_config-IsValid_example = parse_config-IsValid platform (0 ∷ []) filled accepted

fill-precedence_example : filled.token_service_url ≡ "http://tokens"
fill-precedence_example = (fill-precedence platform given).4 refl

-- two separators are trimmed to nothing, one is kept
trimmed_twice : trimmed_prefix "//" ≡ ""
unfolding trimmed_prefix trim_right
trimmed_twice = refl

trimmed_once : trimmed_prefix "/" ≡ "/"
unfolding trimmed_prefix trim_right
trimmed_once = refl
