-- ===== src/Config/Bounds.antt =====
-- What an accepted configuration guarantees.
use consent_plugin.Common.{
  ℕ, ◌≤◌, String, ◌≡◌, ◌≢◌, ◌⊎◌, refl, sym, ap, true, Option, none, some, List, [], ◌∷◌, arith,
  eq_iff, Option-cases, inl, inr, All,
}
use consent_plugin.Common.Int.{ℤ, pos, negsuc}
use consent_plugin.Common.Text.{has_prefix_char, trim_right}
use mathlib.Core.Path.{subst}
use consent_plugin.Failure.{Failure, ok, Result-cases}
use consent_plugin.Runtime.{Bytes}
use consent_plugin.Config.{
  Config, Platform, or_default, is_fail_open, trimmed_prefix, url_ok, in_range, first_failure,
  checks, validate, parse_config, apply_env, apply_defaults, max_consent_api_timeout,
  min_http_status_code, max_http_status_code, max_owner_resolver_timeout,
  max_response_phase_timeout, max_max_resolve_body_bytes, max_participant_token_ttl,
  max_max_owners_per_response,
}

-- `n` is a natural number of the range
abbrev pub IsWithin : ℕ → ℕ → ℤ → Type 0
IsWithin least most (pos n) = (least ≤ n) × (n ≤ most)
IsWithin least most (negsuc n) = ⊥

-- an URL with an accepted scheme
abbrev pub IsHttp : Platform → String → Type 0
IsHttp p url = (p.scheme_of url ≡ ok "http") ⊎ (p.scheme_of url ≡ ok "https")

-- What the other parts of the plugin rely on.
pub record IsValid (p : Platform) (c : Config) : Type 0 where
  pub api_url : IsHttp p c.consent_api_url
  pub resolver_url : IsHttp p c.owner_resolver_url
  pub resolver_named : c.owner_resolver_url ≢ ""
  pub rooted : has_prefix_char b'/' c.consent_api_prefix ≡ true
  pub api_timeout : IsWithin 1 max_consent_api_timeout c.consent_api_timeout
  pub status : IsWithin min_http_status_code max_http_status_code c.deny_status_code
  pub resolver_timeout : IsWithin 1 max_owner_resolver_timeout c.owner_resolver_timeout
  pub phase_timeout : IsWithin 1 max_response_phase_timeout c.response_phase_timeout
  pub body_cap : IsWithin 1 max_max_resolve_body_bytes c.max_resolve_body_bytes
  pub token_ttl : IsWithin 1 max_participant_token_ttl c.participant_token_ttl
  pub owner_cap : IsWithin 1 max_max_owners_per_response c.max_owners_per_response
  pub audit : c.audit_enabled ≡ true → c.audit_otlp_endpoint ≢ ""
  pub token_service : c.token_service_url ≢ "" → IsHttp p c.token_service_url
  pub credentials : (c.token_service_url ≢ "") ⊎ (c.participant_token ≢ "")

abbrev Passed : Option Failure → Type 0
Passed r = r ≡ none

module _ (p : Platform) where
  all-Passed : (l : List (Option Failure)) → first_failure p l ≡ none → All Passed l
  unfolding first_failure
  all-Passed [] h = tt
  all-Passed (none ∷ rest) h = (refl, all-Passed rest h)
  all-Passed (some f ∷ rest) h = ground arith

  within :
      (field : String) (n : ℤ) (least most : ℕ)
      → in_range p field n least most ≡ none
      → IsWithin least most n
  unfolding in_range
  within field (pos n) least most h = ground arith
  within field (negsuc n) least most h = ground arith

  http : (field url : String) → url_ok p field url ≡ none → IsHttp p url
  unfolding url_ok
  http field url h = elim (Result-cases (p.scheme_of url)) [
    | inl (f, e) ↦ ground arith
    | inr (scheme, e) ↦ ground (arith, eq_iff scheme "http", eq_iff scheme "https")
  ]

  -- Every configuration that validates is valid.
  validate-IsValid : (c : Config) → validate p c ≡ none → IsValid p c
  unfolding validate checks
  validate-IsValid c h =
      let (a, (b, (d, (e, (g, (i, (j, (k, (l, (m, (n, (o, (q, (r, (s, t))))))))))))))) =
        all-Passed (checks p c) h in
      record {
        api_url = http _ _ b;
        resolver_url = http _ _ e;
        resolver_named = ground (arith, d, eq_iff c.owner_resolver_url "");
        rooted = ground (arith, g);
        api_timeout = within _ _ _ _ i;
        status = within _ _ _ _ j;
        resolver_timeout = within _ _ _ _ k;
        phase_timeout = within _ _ _ _ l;
        body_cap = within _ _ _ _ m;
        token_ttl = within _ _ _ _ n;
        owner_cap = within _ _ _ _ o;
        audit = λ on. ground (arith, q, eq_iff c.audit_otlp_endpoint "");
        token_service = λ given.
            http "token_service_url" c.token_service_url
              (ground (arith, r, eq_iff c.token_service_url ""));
        credentials =
            ground (arith, s, eq_iff c.token_service_url "", eq_iff c.participant_token "");
      }

  -- An accepted configuration is the decoded one with the defaults and the environment filled in,
  -- and it meets every bound and names every service that the plugin relies on.
  pub parse_config-IsValid :
      (bytes : Bytes) (c : Config)
      → parse_config p bytes ≡ ok c
      → IsValid p c
        × ((given : Config) × (p.unmarshal_config bytes ≡ ok given)
            × (c ≡ apply_env p (apply_defaults given)))
  unfolding parse_config
  parse_config-IsValid [] c h = ground arith
  parse_config-IsValid (b ∷ bs) c h = elim (Result-cases (p.unmarshal_config (b ∷ bs))) [
    | inl (f, e) ↦ ground arith
    | inr (given, e) ↦
        let filled = apply_env p (apply_defaults given) in
        elim (Option-cases (validate p filled)) [
          | inr (f, k) ↦ ground arith
          | inl k ↦
              let same : filled ≡ c = ground arith in
              (subst (IsValid p) same (validate-IsValid filled k), (given, e, sym same))
        ]
  ]

trim_right_idem : (k : ℕ) (s : String) → trim_right k (trim_right k s) ≡ trim_right k s
unfolding trim_right
trim_right_idem k String.[] = refl
trim_right_idem k (String.◌∷◌ ch s) =
    ground (arith, trim_right_idem k s, eq_iff (trim_right k s) "")

-- The prefix of an accepted configuration is "/", or starts with a separator and does not end in one,
-- so that an endpoint's path, which starts with one, continues it.
pub parse_config-prefix :
    (p : Platform) (bytes : Bytes) (c : Config)
    → parse_config p bytes ≡ ok c
    → (has_prefix_char b'/' c.consent_api_prefix ≡ true)
      × ((c.consent_api_prefix ≡ "/")
          ⊎ (trim_right b'/' c.consent_api_prefix ≡ c.consent_api_prefix))
unfolding apply_env apply_defaults trimmed_prefix
parse_config-prefix p bytes c h =
    let (valid, (given, e, same)) = parse_config-IsValid p bytes c h in
    (
      valid.rooted,
      ground (
        arith,
        ap (λ (d : Config). d.consent_api_prefix) same,
        trim_right_idem b'/' (or_default given.consent_api_prefix "/v1"),
        eq_iff (or_default given.consent_api_prefix "/v1") "/",
      ),
    )

-- A value of the route wins over the environment, which is asked only where the route has none; and
-- neither the environment nor a default touches fail_open, require_purpose or the two required
-- services.
pub fill-precedence :
    (p : Platform) (c : Config)
    → let filled = apply_env p (apply_defaults c) in
      ((c.consent_key ≢ "") → filled.consent_key ≡ c.consent_key)
      × ((c.token_service_url ≢ "") → filled.token_service_url ≡ c.token_service_url)
      × ((c.audit_otlp_endpoint ≢ "") → filled.audit_otlp_endpoint ≡ c.audit_otlp_endpoint)
      × (c.consent_key ≡ "" → filled.consent_key ≡ p.getenv "CONSENT_KEY")
      × (c.token_service_url ≡ "" → filled.token_service_url ≡ p.getenv "CONSENT_TOKEN_SERVICE_URL")
      × (c.audit_otlp_endpoint ≡ ""
          → filled.audit_otlp_endpoint ≡ p.getenv "CONSENT_AUDIT_OTLP_ENDPOINT")
      × (is_fail_open filled ≡ is_fail_open c)
      × (filled.require_purpose ≡ c.require_purpose)
      × (filled.consent_api_url ≡ c.consent_api_url)
      × (filled.owner_resolver_url ≡ c.owner_resolver_url)
unfolding apply_env apply_defaults is_fail_open
fill-precedence p c = (
  ground (arith, eq_iff c.consent_key ""),
  ground (arith, eq_iff c.token_service_url ""),
  ground (arith, eq_iff c.audit_otlp_endpoint ""),
  ground (arith, eq_iff c.consent_key ""),
  ground (arith, eq_iff c.token_service_url ""),
  ground (arith, eq_iff c.audit_otlp_endpoint ""),
  refl,
  refl,
  refl,
  refl,
)
