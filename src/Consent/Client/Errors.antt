-- ===== src/Consent/Client/Errors.antt =====
-- The errors of the consent check.
use consent_plugin.Common.{String, ◌≡◌, ◌≢◌, Bool, false, none, arith, eq_iff}
use consent_plugin.Failure.{Failure, err, is_unauthorized}
use consent_plugin.Runtime.{Runtime, World}
use consent_plugin.Consent.{ConsentRequest}
use consent_plugin.Common.Map.{get}
use consent_plugin.Consent.Cache.{Client, participant_cache_key}
use consent_plugin.Consent.Client.{no_credentials_configured}
use consent_plugin.Consent.Client.Credentials.{credentials}
use consent_plugin.Consent.Client.Check.{check, retry_check, check_consent}
use consent_plugin.Consent.Client.Registry.{
  lookup_participant_sd, retry_lookup, ask_registry, cached_participant,
  participant_self_description_by_did,
}

module _ (rt : Runtime) (c : Client) where
  -- The sentinel for a rejected token never leaves CheckConsent.
  pub check_consent-hides_401 :
      (req : ConsentRequest) (w w' : World) (f : Failure)
      → check_consent rt c req w ≡ (err f, w')
      → is_unauthorized f ≡ false
  unfolding check_consent
  check_consent-hides_401 req w w' f h = ground arith

  unconfigured :
      (force : Bool) (w : World)
      → c.static_token ≡ ""
      → c.token_service_url ≡ ""
      → credentials rt c force w ≡ (err no_credentials_configured, w)
  unfolding credentials
  unconfigured force w p q = ground (arith, eq_iff c.static_token "", eq_iff c.token_service_url "")

  unasked :
      (did : String) (w : World)
      → c.static_token ≡ ""
      → c.token_service_url ≡ ""
      → ask_registry rt c did w ≡ (err no_credentials_configured, w)
  unfolding ask_registry lookup_participant_sd retry_lookup
  unasked did w p q = ground (arith, unconfigured false w p q)

  -- A client with neither a token nor a token service fails every check of an identified subject
  -- and consumer, and every lookup of a DID that is not empty and not in the cache, with
  -- ErrNoCredentials, and asks nobody: the state is as it was.
  pub unconfigured_fails :
      (req : ConsentRequest) (did : String) (w : World)
      → c.static_token ≡ ""
      → c.token_service_url ≡ ""
      → req.subject ≢ ""
      → req.consumer ≢ ""
      → did ≢ ""
      → get (participant_cache_key rt c did) w.participant_sd_cache ≡ none
      → (check_consent rt c req w ≡ (err no_credentials_configured, w))
        × (participant_self_description_by_did rt c did w ≡ (err no_credentials_configured, w))
  unfolding check_consent check retry_check participant_self_description_by_did cached_participant
  unconfigured_fails req did w p q s t named uncached = (
    ground (arith, unconfigured false w p q, eq_iff req.subject "", eq_iff req.consumer ""),
    ground (arith, uncached, unasked did w p q, eq_iff did ""),
  )
