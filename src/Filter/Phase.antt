-- ===== src/Filter/Phase.antt =====
-- internal/plugin/consent.go, `evaluate` and `evaluateWithResolver`: the response phase up to the
-- owners' checks.
pub mod Release
mod Examples
use consent_plugin.Common.{
  ℕ, zero, suc, ◌*◌, ◌^◌, ◌<◌, String, Bool, true, false, not, ◌&&◌, Option, none, some, List, [],
  ◌∷◌, ◌==◌, ltb, if◌then◌else◌, length,
}
use consent_plugin.Common.Int.{ℤ, pos, ltb_ℤ, pos_part, times64}
use consent_plugin.Common.Text.{◌<>◌, itoa}
use consent_plugin.Failure.{Failure, Result, ok, err, plain}
use consent_plugin.Runtime.{Bytes, Runtime, World, Exec}
use consent_plugin.Context.{RequestContext, Store, load_and_delete_request_context}
use consent_plugin.Config.{Config}
use consent_plugin.Consent.{Decision, allow, deny}
use consent_plugin.Consent.Cache.{ClientConfig, Client, new_client, seconds}
use consent_plugin.Consent.Client.Credentials.{provider_self_description}
use consent_plugin.Consent.Client.Registry.{participant_self_description_by_did}
use consent_plugin.Resolver.{Resource, Parties, Resolution, resolve}
use consent_plugin.Filter.{
  ResponseOutcome, by_policy, always_closed, fail_outcome, fail_mode_for_error, OwnerClaim,
  distinct_claims, check_purpose_scoping,
}
use consent_plugin.ClaimPath.{consumer_from_claims}

-- clientConfigFromCfg; a duration is an int64 of nanoseconds
unfoldable pub client_config_from_cfg : Config → ClientConfig
unfolding times64
client_config_from_cfg cfg = record {
  base_url = cfg.consent_api_url;
  host = cfg.consent_api_host;
  api_prefix = cfg.consent_api_prefix;
  consent_key = cfg.consent_key;
  provider_sd = cfg.provider_sd;
  participant_token = cfg.participant_token;
  token_service_url = cfg.token_service_url;
  token_audience = cfg.token_audience;
  token_ttl = times64 cfg.participant_token_ttl (seconds 1);
  timeout_ms = cfg.consent_api_timeout;
}

-- The response as the runner offers it: an Nginx variable, the body, and Header().Get, none where
-- Header() is nil.
pub record Response : Type 0 where
  pub var_ : String → Result String
  pub read_body : Result Bytes
  pub get_header : Option (String → String)

-- correlationKey
unfoldable pub correlation_key : (String → Result String) → Option String
correlation_key var_ = elim (var_ "request_id") [
  | err f ↦ none
  | ok id ↦ if id == "" then none else some id
]

abbrev header_type : Option (String → String) → String
header_type none = ""
header_type (some get) = get "Content-Type"

-- responseContentType
unfoldable pub response_content_type : Response → String
response_content_type w = elim (w.var_ "upstream_http_content_type") [
  | err f ↦ header_type w.get_header
  | ok value ↦ if value == "" then header_type w.get_header else value
]

-- How far the phase came: to its outcome, or to the checks of the claims for a consumer.
pub data Verdict : Type 0 where
  decided : ResponseOutcome → Verdict
  to_check : List OwnerClaim → String → Verdict

-- an error decides the phase, a value goes on
abbrev pub proceed :
    {A : Type 0}
    → (Failure → Verdict)
    → (A → World → Verdict × World)
    → Result A × World
    → Verdict × World
proceed stop go (err f, w) = (stop f, w)
proceed stop go (ok a, w) = go a w

module _ (cfg : Config) (key : String) where
  abbrev pub closed : String → Verdict
  closed reason = decided (fail_outcome cfg always_closed reason key none)

  abbrev pub failed_by : String → Failure → Verdict
  failed_by prefix f =
      decided (fail_outcome cfg (fail_mode_for_error f) (prefix <> f.text) key none)

  abbrev pub outage : String → Failure → Verdict
  outage prefix f = decided (fail_outcome cfg by_policy (prefix <> f.text) key none)

  abbrev pub no_consent_required : RequestContext → Verdict
  no_consent_required ctx = decided (record {
    decision = allow;
    reason = "no consent required";
    request_id = key;
    subject = "";
    resource = ctx.path;
    method = ctx.method;
    checked = [];
    fail_mode = "";
  })

  -- the cap on the owners
  unfoldable pub capped : String → List OwnerClaim → Verdict
  capped consumer claims =
      if ltb_ℤ cfg.max_owners_per_response (pos (length claims))
      then closed (
          "response resolves to "
          <> itoa (length claims)
          <> " data owners, above max_owners_per_response="
          <> itoa (pos_part cfg.max_owners_per_response))
      else to_check claims consumer

  -- what follows a resolution
  unfoldable pub after_resolve : RequestContext → String → Resolution → Verdict
  unfolding capped
  after_resolve ctx consumer result =
      if not result.consent_required then no_consent_required ctx else elim result.claims [
        | [] ↦ closed "consent required but no data owner resolved"
        | c ∷ cs ↦ elim (distinct_claims result.claims) [
          | err f ↦ closed f.text
          | ok claims ↦ elim (check_purpose_scoping cfg key claims) [
            | some outcome ↦ decided outcome
            | none ↦ capped consumer claims
          ]
        ]
      ]

  module _ (rt : Runtime) (c : Client) (ctx : RequestContext) where
    abbrev pub resource_for : Response → Resource
    resource_for w = record {
      service = cfg.service;
      method = ctx.method;
      path = ctx.path;
      content_type = response_content_type w;
    }

    abbrev pub parties : String → String → Parties
    parties consumer provider = record { consumer = consumer; provider = provider }

    -- the two parties, and then the resolver
    unfoldable pub identify : Response → Bytes → String → World → Verdict × World
    unfolding after_resolve response_content_type
    identify w body consumer_did w₀ =
        proceed (failed_by "consumer participant lookup failed: ")
          (λ consumer w₁.
            proceed (failed_by "provider self-description lookup failed: ")
              (λ provider w₂.
                proceed (outage "owner resolver error: ")
                  (λ result w₃. (after_resolve ctx consumer result, w₃))
                  (resolve rt cfg.owner_resolver_url (resource_for w) (parties consumer provider)
                    body w₂))
              (provider_self_description rt c w₁))
          (participant_self_description_by_did rt c consumer_did w₀)

    -- evaluateWithResolver, up to checkOwners
    unfoldable pub evaluate_with_resolver : Response → World → Verdict × World
    unfolding identify
    evaluate_with_resolver w w₀ = elim w.read_body [
      | err f ↦ (outage "read upstream body: " f, w₀)
      | ok body ↦
          if ltb_ℤ cfg.max_resolve_body_bytes (pos (length body))
          then (
            closed (
                "upstream body of "
                <> itoa (length body)
                <> " bytes exceeds max_resolve_body_bytes="
                <> itoa (pos_part cfg.max_resolve_body_bytes)),
            w₀,
          )
          else elim (consumer_from_claims ctx.jwt_claims cfg.consumer_claim) [
            | err f ↦ (closed ("no consuming participant identified: " <> f.text), w₀)
            | ok did ↦ identify w body did w₀
          ]
    ]

-- evaluate, at the time `now`
unfoldable pub evaluate :
    Runtime → Config → Response → ℕ → Store → World → (Verdict × Store) × World
evaluate rt cfg w now store w₀ = elim (correlation_key w.var_) [
  | none ↦ ((closed cfg "" "no request correlation id", store), w₀)
  | some key ↦
      let (found, store') = load_and_delete_request_context now key store in
      elim found [
        | none ↦ ((closed cfg key "no request context", store'), w₀)
        | some ctx ↦
            let client = new_client (client_config_from_cfg cfg) in
            let (v, w₁) = evaluate_with_resolver cfg key rt client ctx w w₀ in ((v, store'), w₁)
      ]
]
