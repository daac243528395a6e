-- ===== src/Consent/Cache/Examples.antt =====
-- The cache keys and lifetimes at concrete clients.
use consent_plugin.Common.{ℕ, ◌+◌, ◌≤◌, ◌<◌, String, ◌≡◌, ◌≢◌, refl, arith}
use consent_plugin.Common.Int.{pos}
use consent_plugin.Runtime.Sample.{sample}
use consent_plugin.Consent.Cache.{Client, cache_for, seconds}
use consent_plugin.Consent.Cache.Keys.{
  SameCredential, IsPrintable, IsHex, cache_key_injective, cache_for_bounds,
}

abbrev client : Client
client = record {
  base_url = "b";
  host = "";
  api_prefix = "/";
  consent_key = "k";
  provider_sd = "";
  static_token = "t";
  token_service_url = "";
  token_audience = "";
  token_ttl = seconds 50;
  timeout_ms = 5;
}

client-IsPrintable : IsPrintable client
client-IsPrintable = record {
  base_url = (λ e. ground arith, tt);
  host = tt;
  api_prefix = (λ e. ground arith, tt);
  token_audience = tt;
  token_service_url = tt;
  provider_sd = tt;
}

not_empty : ◌≢◌ {A = String} "ab" ""
not_empty e = cc

sample-IsHex : IsHex sample
sample-IsHex = record {
  filled = λ s. not_empty;
  no_nul = λ s. (λ e. ground arith, (λ e. ground arith, tt));
}

cache_key_injective_example : SameCredential client client
cache_key_injective_example =
    cache_key_injective sample client client sample-IsHex (λ h. refl) (λ h. refl) client-IsPrintable
      client-IsPrintable refl

cache_for_bounds_example :
    (0 < cache_for (pos (seconds 600)) (seconds 3000))
    × (cache_for (pos (seconds 600)) (seconds 3000) ≤ seconds 3000)
    × ((n : ℕ)
        → pos (seconds 600) ≡ pos n
        → 0 < n
        → (cache_for (pos (seconds 600)) (seconds 3000) ≤ n)
          × (60_000_000_000 < n
              → 60_000_000_000 < seconds 3000
              → cache_for (pos (seconds 600)) (seconds 3000) + 60_000_000_000 ≤ n))
cache_for_bounds_example = cache_for_bounds (pos (seconds 600)) (seconds 3000) (omega arith)

skewed : cache_for (pos (seconds 600)) (seconds 3000) ≡ seconds 540
unfolding cache_for
skewed = refl
