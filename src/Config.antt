-- ===== src/Config.antt =====
-- internal/plugin/config.go: the plugin's configuration, its defaults, and its validation.
pub mod Bounds
pub mod Examples
use consent_plugin.Common.{
  ℕ, zero, ◌+◌, ◌*◌, ◌^◌, suc, String, Bool, true, false, not, ◌&&◌, ◌||◌, Option, none, some, List,
  [], ◌∷◌, ◌==◌, if◌then◌else◌,
}
use consent_plugin.Common.Int.{ℤ, pos, negsuc, ltb_ℤ}
use consent_plugin.Common.Map.{Map}
use consent_plugin.Common.Text.{◌<>◌, itoa, trim_right, has_prefix_char}
use consent_plugin.Failure.{Failure, Result, ok, err, wrap, plain}
use consent_plugin.Runtime.{Bytes}

-- `Config`; an int field is an ℤ, since the JSON may hold a negative number.
pub record Config : Type 0 where
  pub consent_api_url : String
  pub consent_api_timeout : ℤ
  pub jwt_header_name : String
  pub jwt_claims_to_forward : List String
  pub consent_api_prefix : String
  pub owner_resolver_url : String
  pub consent_api_host : String
  pub owner_resolver_timeout : ℤ
  pub response_phase_timeout : ℤ
  pub require_purpose : Bool
  pub max_resolve_body_bytes : ℤ
  pub max_owners_per_response : ℤ
  pub service : String
  pub consumer_claim : String
  pub consent_key : String
  pub token_service_url : String
  pub token_audience : String
  pub participant_token_ttl : ℤ
  pub participant_token : String
  pub provider_sd : String
  pub deny_status_code : ℤ
  pub deny_response_body : String
  pub deny_response_content_type : String
  pub fail_open : Option Bool
  pub audit_enabled : Bool
  pub audit_otlp_endpoint : String
  pub audit_otlp_headers : Map String
  pub audit_service_name : String

-- What the package takes from Go's libraries: the scheme that url.ParseRequestURI finds, the
-- environment ("" for a variable that is not set), the verb %q, and json.Unmarshal into a `Config`.
pub record Platform : Type 0 where
  pub scheme_of : String → Result String
  pub getenv : String → String
  pub quote : String → String
  pub unmarshal_config : Bytes → Result Config

-- Config.IsFailOpen
unfoldable pub is_fail_open : Config → Bool
is_fail_open c = elim c.fail_open [ none ↦ false | some b ↦ b ]

abbrev pub or_default : String → String → String
or_default s default = if s == "" then default else s

abbrev is_zero : ℤ → Bool
is_zero (pos zero) = true
is_zero _ = false

abbrev pub int_default : ℤ → ℕ → ℤ
int_default n default = if is_zero n then pos default else n

abbrev pub default_participant_token_ttl : ℕ
default_participant_token_ttl = 3000

abbrev pub default_deny_status_code : ℕ
default_deny_status_code = 403

abbrev pub max_consent_api_timeout : ℕ
max_consent_api_timeout = 60000

abbrev pub min_http_status_code : ℕ
min_http_status_code = 100

abbrev pub max_http_status_code : ℕ
max_http_status_code = 599

abbrev pub max_owner_resolver_timeout : ℕ
max_owner_resolver_timeout = 60000

abbrev pub max_response_phase_timeout : ℕ
max_response_phase_timeout = 120000

abbrev pub max_max_resolve_body_bytes : ℕ
max_max_resolve_body_bytes = 100 * 2 ^ 20

abbrev pub max_participant_token_ttl : ℕ
max_participant_token_ttl = 86400

abbrev pub max_max_owners_per_response : ℕ
max_max_owners_per_response = 1000

-- the trailing separators go, except from the prefix "/"
unfoldable pub trimmed_prefix : String → String
unfolding trim_right
trimmed_prefix prefix =
    let given = or_default prefix "/v1" in
    if not (given == "/") then trim_right b'/' given else given

-- Config.applyDefaults
unfoldable pub apply_defaults : Config → Config
unfolding trimmed_prefix
apply_defaults c = record c {
  consent_api_timeout = int_default c.consent_api_timeout 5000;
  jwt_header_name = or_default c.jwt_header_name "Authorization";
  consent_api_prefix = trimmed_prefix c.consent_api_prefix;
  owner_resolver_timeout = int_default c.owner_resolver_timeout 2000;
  response_phase_timeout = int_default c.response_phase_timeout 10000;
  max_owners_per_response = int_default c.max_owners_per_response 50;
  max_resolve_body_bytes = int_default c.max_resolve_body_bytes (2 ^ 20);
  participant_token_ttl = int_default c.participant_token_ttl default_participant_token_ttl;
  consumer_claim = or_default c.consumer_claim "verifiableCredential.issuer";
  token_audience = or_default c.token_audience "consent-manager";
  deny_status_code = int_default c.deny_status_code default_deny_status_code;
  deny_response_body =
      or_default c.deny_response_body "{\"error\":\"access denied by consent policy\"}";
  deny_response_content_type = or_default c.deny_response_content_type "application/json";
}

module _ (p : Platform) where
  -- Config.applyEnv: a value of the configuration wins over the environment's
  unfoldable pub apply_env : Config → Config
  apply_env c = record c {
    consent_key = or_default c.consent_key (p.getenv "CONSENT_KEY");
    token_service_url = or_default c.token_service_url (p.getenv "CONSENT_TOKEN_SERVICE_URL");
    audit_otlp_endpoint = or_default c.audit_otlp_endpoint (p.getenv "CONSENT_AUDIT_OTLP_ENDPOINT");
  }

  -- the checks of one URL: it parses, and its scheme is http or https
  unfoldable pub url_ok : String → String → Option Failure
  url_ok field url = elim (p.scheme_of url) [
    | err f ↦ some (wrap ("config validation: " <> field <> " is not a valid URL: ") f)
    | ok scheme ↦
        if not (scheme == "http") && not (scheme == "https")
        then some (
            plain (
              "config validation: "
              <> field
              <> " must use http or https scheme, got "
              <> p.quote scheme))
        else none
  ]

  abbrev show_int : ℤ → String
  show_int (pos n) = itoa n
  show_int (negsuc n) = "-" <> itoa (suc n)

  -- one test of a range
  unfoldable pub in_range : String → ℤ → ℕ → ℕ → Option Failure
  in_range field n least most =
      if ltb_ℤ n (pos least) || ltb_ℤ (pos most) n
      then some (
          plain (
            "config validation: "
            <> field
            <> " must be between "
            <> itoa least
            <> " and "
            <> itoa most
            <> ", got "
            <> show_int n))
      else none

  abbrev invalid : String → Option Failure
  invalid text = some (plain ("config validation: " <> text))

  -- the first failure of a list of checks
  unfoldable pub first_failure : List (Option Failure) → Option Failure
  first_failure [] = none
  first_failure (none ∷ rest) = first_failure rest
  first_failure (some f ∷ rest) = some f

  -- the checks of Config.Validate, in its order
  unfoldable pub checks : Config → List (Option Failure)
  checks c =
      (if c.consent_api_url == "" then invalid "consent_api_url is required" else none)
      ∷ url_ok "consent_api_url" c.consent_api_url
      ∷ (if c.owner_resolver_url == ""
          then invalid (
              "owner_resolver_url is required — "
              <> "the data owner is resolved from the response data, and without a resolver "
              <> "the plugin cannot determine whose consent to check")
          else none)
      ∷ url_ok "owner_resolver_url" c.owner_resolver_url
      ∷ (if not (has_prefix_char b'/' c.consent_api_prefix)
          then invalid (
              "consent_api_prefix must start with "
              <> p.quote "/"
              <> ", got "
              <> p.quote c.consent_api_prefix)
          else none)
      ∷ in_range "consent_api_timeout" c.consent_api_timeout 1 max_consent_api_timeout
      ∷ in_range "deny_status_code" c.deny_status_code min_http_status_code max_http_status_code
      ∷ in_range "owner_resolver_timeout" c.owner_resolver_timeout 1 max_owner_resolver_timeout
      ∷ in_range "response_phase_timeout" c.response_phase_timeout 1 max_response_phase_timeout
      ∷ in_range "max_resolve_body_bytes" c.max_resolve_body_bytes 1 max_max_resolve_body_bytes
      ∷ in_range "participant_token_ttl" c.participant_token_ttl 1 max_participant_token_ttl
      ∷ in_range "max_owners_per_response" c.max_owners_per_response 1 max_max_owners_per_response
      ∷ (if c.audit_enabled && (c.audit_otlp_endpoint == "")
          then invalid "audit_otlp_endpoint is required when audit_enabled is true"
          else none)
      ∷ (if not (c.token_service_url == "")
          then url_ok "token_service_url" c.token_service_url
          else none)
      ∷ (if (c.token_service_url == "") && (c.participant_token == "")
          then invalid (
              "one of token_service_url or participant_token is required — "
              <> "without a way to authenticate as the participant no consent check can succeed")
          else none)
      ∷ []

  -- Config.Validate, none where it returns nil
  unfoldable pub validate : Config → Option Failure
  unfolding first_failure checks
  validate c = first_failure (checks c)

  abbrev checked : Config → Result Config
  checked c = elim (validate c) [ none ↦ ok c | some f ↦ err f ]

  abbrev decoded : Result Config → Result Config
  decoded (err f) = err (wrap "config parsing: failed to unmarshal JSON: " f)
  decoded (ok c) = checked (apply_env (apply_defaults c))

  -- ParseConfig
  unfoldable pub parse_config : Bytes → Result Config
  unfolding validate
  parse_config [] = err (plain "config parsing: input is empty")
  parse_config (b ∷ bs) = decoded (p.unmarshal_config (b ∷ bs))
