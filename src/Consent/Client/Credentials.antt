-- ===== src/Consent/Client/Credentials.antt =====
-- internal/consent/client.go, `credentials`: the participant token and the provider's
-- self-description, from the configuration or through the credential cache.
use consent_plugin.Common.{
  ◌+◌, String, Bool, true, false, not, ◌&&◌, Option, none, some, ◌==◌, ltb, if◌then◌else◌,
}
use consent_plugin.Common.Map.{get, put}
use consent_plugin.Failure.{ok}
use consent_plugin.Runtime.{Runtime, CacheEntry, Exec, pure, raise, ◌>>=◌, ◌>>◌, read_clock}
use consent_plugin.Consent.Cache.{Client, cache_key, cache_for}
use consent_plugin.Consent.Client.{fetch_token, fetch_provider_sd, no_credentials_configured}

abbrev pub new_entry : CacheEntry
new_entry = record { token = ""; token_expiry = 0; provider_sd = "" }

abbrev pub entry_or_new : Option CacheEntry → CacheEntry
entry_or_new none = new_entry
entry_or_new (some e) = e

module _ (rt : Runtime) (c : Client) where
  -- the entry of this client's key, which `credentials` creates if it is absent
  unfoldable pub cred_entry : Exec CacheEntry
  unfolding get put
  cred_entry w =
      let e = entry_or_new (get (cache_key rt c) w.cred_cache) in
      (ok e, record w { cred_cache = put (cache_key rt c) e w.cred_cache })

  unfoldable pub set_entry : CacheEntry → Exec Unit
  unfolding put
  set_entry e w = (ok tt, record w { cred_cache = put (cache_key rt c) e w.cred_cache })

  -- entry.token == "" || time.Now().After(entry.tokenExpiry); the clock is read only in the second
  -- case
  unfoldable pub needs_token : CacheEntry → Exec Bool
  unfolding read_clock
  needs_token e =
      if e.token == "" then pure true else (do now ← read_clock rt; pure (ltb e.token_expiry now))

  unfoldable pub refresh_token : CacheEntry → Exec String
  unfolding read_clock set_entry
  refresh_token e = do
    (fetched, lifetime) ← fetch_token rt c
    now ← read_clock rt
    set_entry (record e { token = fetched; token_expiry = now + cache_for lifetime c.token_ttl })
    pure fetched

  -- the token part of `credentials`
  unfoldable pub participant_token : Bool → Exec String
  unfolding cred_entry set_entry needs_token
  participant_token force_fetch = if not (c.static_token == "") then pure c.static_token else do
    found ← cred_entry
    let e = if force_fetch then record found { token = "" } else found
    set_entry e
    stale ← needs_token e
    if stale then refresh_token e else pure e.token

  -- the provider part of `credentials`
  unfoldable pub provider_sd_of : String → Exec String
  unfolding cred_entry set_entry
  provider_sd_of token = if not (c.provider_sd == "") then pure c.provider_sd else do
    e ← cred_entry
    if not (e.provider_sd == "") then pure e.provider_sd else do
      sd ← fetch_provider_sd rt c token
      set_entry (record e { provider_sd = sd })
      pure sd

  unfoldable pub credentials : Bool → Exec (String × String)
  unfolding cred_entry
  credentials force_fetch =
      if not (c.static_token == "") && not (c.provider_sd == "")
      then pure (c.static_token, c.provider_sd)
      else if (c.static_token == "") && (c.token_service_url == "")
      then raise no_credentials_configured
      else (do
        cred_entry
        token ← participant_token force_fetch
        sd ← provider_sd_of token
        pure (token, sd))

  -- ProviderSelfDescription
  unfoldable pub provider_self_description : Exec String
  provider_self_description = do (token, sd) ← credentials false; pure sd
