-- ===== src/Consent/Cache.antt =====
-- internal/consent/client.go, the client's configuration and the keys of its caches.
pub mod Keys
mod Examples
use Prim.Native.Char.{code}
use consent_plugin.Common.{
  ℕ, ◌+◌, ◌-◌, ◌*◌, ◌^◌, ◌<◌, String, Bool, true, false, ◌&&◌, List, [], ◌∷◌, ◌==◌, ltb,
  if◌then◌else◌,
}
use consent_plugin.Common.Int.{ℤ, pos, negsuc, pos_part, ltb_ℤ}
use consent_plugin.Common.Text.{join, trim_right, ◌<>◌}
use consent_plugin.Runtime.{Runtime}

-- Durations are nanoseconds.
abbrev pub seconds : ℕ → ℕ
seconds n = n * 10 ^ 9

abbrev pub default_api_prefix : String
default_api_prefix = "/v1"

abbrev pub default_timeout_ms : ℕ
default_timeout_ms = 5000

abbrev pub default_token_ttl : ℕ
default_token_ttl = seconds (50 * 60)

abbrev pub token_refresh_skew : ℕ
token_refresh_skew = seconds 60

abbrev pub identifier_cache_ttl : ℕ
identifier_cache_ttl = seconds 60

abbrev pub participant_sd_cache_ttl : ℕ
participant_sd_cache_ttl = seconds (10 * 60)

abbrev pub participant_sd_negative_ttl : ℕ
participant_sd_negative_ttl = seconds 30

pub record ClientConfig : Type 0 where
  pub base_url : String
  pub host : String
  pub api_prefix : String
  pub consent_key : String
  pub provider_sd : String
  pub participant_token : String
  pub token_service_url : String
  pub token_audience : String
  pub token_ttl : ℤ
  pub timeout_ms : ℤ

-- `static_token` is staticToken; the timeout is that of the client's http.Client.
pub record Client : Type 0 where
  pub base_url : String
  pub host : String
  pub api_prefix : String
  pub consent_key : String
  pub provider_sd : String
  pub static_token : String
  pub token_service_url : String
  pub token_audience : String
  pub token_ttl : ℕ
  pub timeout_ms : ℕ

-- NewClient; the lifetime and the timeout are positive in every client
unfoldable pub new_client : ClientConfig → Client
new_client cfg = record {
  base_url = cfg.base_url;
  host = cfg.host;
  api_prefix = if cfg.api_prefix == "" then default_api_prefix else cfg.api_prefix;
  consent_key = cfg.consent_key;
  provider_sd = cfg.provider_sd;
  static_token = cfg.participant_token;
  token_service_url = cfg.token_service_url;
  token_audience = cfg.token_audience;
  token_ttl = if ltb_ℤ (pos 0) cfg.token_ttl then pos_part cfg.token_ttl else default_token_ttl;
  timeout_ms = if ltb_ℤ cfg.timeout_ms (pos 1) then default_timeout_ms else pos_part cfg.timeout_ms;
}

-- the separator of the cache keys, a NUL
abbrev pub separator : String
separator = "\0"

unfoldable pub hash_secret : Runtime → String → String
hash_secret rt secret = if secret == "" then "" else rt.fingerprint secret

-- Client.cacheKey
unfoldable pub cache_key : Runtime → Client → String
unfolding hash_secret join
cache_key rt c = join separator (
    c.base_url
    ∷ c.host
    ∷ c.api_prefix
    ∷ c.token_audience
    ∷ c.token_service_url
    ∷ c.provider_sd
    ∷ hash_secret rt c.static_token
    ∷ hash_secret rt c.consent_key
    ∷ [])

-- Client.identifierCacheKey
unfoldable pub identifier_cache_key : Runtime → Client → String → String → String
unfolding cache_key join
identifier_cache_key rt c provider_sd subject =
    join separator (cache_key rt c ∷ provider_sd ∷ subject ∷ [])

-- the key of ParticipantSelfDescriptionByDID
unfoldable pub participant_cache_key : Runtime → Client → String → String
unfolding cache_key
participant_cache_key rt c did = cache_key rt c <> separator <> did

-- Client.endpoint
unfoldable pub endpoint : Client → String → String
unfolding trim_right
endpoint c path = trim_right b'/' c.base_url <> c.api_prefix <> path

-- cacheFor; the lifetime that the service reports may be negative, the cap is not
unfoldable pub cache_for : ℤ → ℕ → ℕ
cache_for lifetime max_lifetime =
    let shorter = ltb_ℤ (pos 0) lifetime && ltb_ℤ lifetime (pos max_lifetime) in
    let ttl = if shorter then pos_part lifetime else max_lifetime in
    if ltb token_refresh_skew ttl then ttl - token_refresh_skew else ttl
