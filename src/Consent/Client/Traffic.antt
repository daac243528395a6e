-- ===== src/Consent/Client/Traffic.antt =====
-- How many exchanges the client's calls make.
use consent_plugin.Common.{
  ℕ, ◌+◌, ◌≤◌, String, ◌≡◌, inl, inr, Bool, Option, none, some, [], ◌∷◌, arith, length,
  length-append,
}
use consent_plugin.Failure.{Result, ok, err}
use consent_plugin.Runtime.{HttpRequest, Runtime, CacheEntry, World, Exec, Outcome-cases}
use consent_plugin.Consent.{ConsentRequest, ConsentResponse}
use consent_plugin.Consent.Cache.{Client}
use consent_plugin.Consent.Client.{
  with_host, token_request, me_request, do_request, fetch_token, fetch_provider_sd,
}
use consent_plugin.Consent.Client.Credentials.{
  refresh_token, participant_token, provider_sd_of, credentials,
}
use consent_plugin.Consent.Client.Check.{
  search_request, consents_request, search_identifier, resolve_user_identifier, has_granted_consent,
  check_identified, check, retry_check, check_consent,
}

-- The action makes at most `n` exchanges from `w`, and forgets none.
abbrev pub MakesAtMost : {A : Type 0} → ℕ → Exec A → World → Type 0
MakesAtMost n m w = length (m w).1.sent ≤ length w.sent + n

module _ (rt : Runtime) (c : Client) where
  fetch_token-MakesAtMost : (w : World) → MakesAtMost 1 (fetch_token rt c) w
  unfolding fetch_token
  fetch_token-MakesAtMost w = ground (arith, length-append {0} w.sent (token_request rt c ∷ []))

  do_request_one :
      (req : HttpRequest) (w : World) → length (do_request rt c req w).1.sent ≡ length w.sent + 1
  unfolding do_request
  do_request_one req w = omega (arith, length-append {0} w.sent (with_host c req ∷ []))

  fetch_provider_sd-MakesAtMost :
      (token : String) (w : World) → MakesAtMost 1 (fetch_provider_sd rt c token) w
  unfolding fetch_provider_sd
  fetch_provider_sd-MakesAtMost token w =
      ground (arith, length-append {0} w.sent (with_host c (me_request rt c token) ∷ []))

  refresh_token-MakesAtMost : (e : CacheEntry) (w : World) → MakesAtMost 1 (refresh_token rt c e) w
  unfolding refresh_token
  refresh_token-MakesAtMost e w =
      let fetched = fetch_token-MakesAtMost w in
      elim (Outcome-cases (fetch_token rt c w)) [
        | inl (f, v, k) ↦ ground arith
        | inr (p, v, k) ↦ ground arith
      ]

  participant_token-MakesAtMost :
      (force : Bool) (w : World) → MakesAtMost 1 (participant_token rt c force) w
  unfolding participant_token
  participant_token-MakesAtMost force w = grind (arith, refresh_token-MakesAtMost)

  provider_sd_of-MakesAtMost :
      (token : String) (w : World) → MakesAtMost 1 (provider_sd_of rt c token) w
  unfolding provider_sd_of
  provider_sd_of-MakesAtMost token w = grind (arith, fetch_provider_sd-MakesAtMost)

  pub credentials-MakesAtMost :
      (force : Bool) (w : World) → MakesAtMost 2 (credentials rt c force) w
  unfolding credentials
  credentials-MakesAtMost force w =
      grind (arith, participant_token-MakesAtMost, provider_sd_of-MakesAtMost)

  search_identifier-MakesAtMost :
      (subject sd token : String) (w : World)
      → MakesAtMost 1 (search_identifier rt c subject sd token) w
  unfolding search_identifier
  search_identifier-MakesAtMost subject sd token w =
      ground
        (arith, length-append {0} w.sent (with_host c (search_request rt c subject sd token) ∷ []))

  resolve-MakesAtMost :
      (subject sd token : String) (w : World)
      → MakesAtMost 1 (resolve_user_identifier rt c subject sd token) w
  unfolding resolve_user_identifier
  resolve-MakesAtMost subject sd token w = grind (arith, search_identifier-MakesAtMost)

  has_granted_consent-MakesAtMost :
      (token identifier : String) (req : ConsentRequest) (w : World)
      → MakesAtMost 1 (has_granted_consent rt c token identifier req) w
  unfolding has_granted_consent
  has_granted_consent-MakesAtMost token identifier req w =
      ground (
        arith,
        length-append {0} w.sent (with_host c (consents_request rt c token identifier) ∷ []),
      )

  check_identified-MakesAtMost :
      (req : ConsentRequest) (token : String) (found : Option String) (w : World)
      → MakesAtMost 1 (check_identified rt c req token found) w
  unfolding check_identified
  check_identified-MakesAtMost req token none w = omega arith
  check_identified-MakesAtMost req token (some i) w = grind (arith, has_granted_consent-MakesAtMost)

  check-MakesAtMost :
      (req : ConsentRequest) (force : Bool) (w : World) → MakesAtMost 4 (check rt c req force) w
  unfolding check
  check-MakesAtMost req force w =
      grind (arith, credentials-MakesAtMost, resolve-MakesAtMost, check_identified-MakesAtMost)

  retry_check-MakesAtMost :
      (req : ConsentRequest) (r : Result ConsentResponse) (w : World)
      → MakesAtMost 4 (retry_check rt c req r) w
  unfolding retry_check
  retry_check-MakesAtMost req (ok resp) w = omega arith
  retry_check-MakesAtMost req (err f) w = grind (arith, check-MakesAtMost)

  -- One consent check makes at most eight exchanges: a token, the self-description, the search and
  -- the lookup, and once more all of them after a 401, whatever other calls do to the caches
  -- meanwhile.
  pub check_consent-MakesAtMost :
      (req : ConsentRequest) (w : World) → MakesAtMost 8 (check_consent rt c req) w
  unfolding check_consent
  check_consent-MakesAtMost req w = grind (arith, check-MakesAtMost, retry_check-MakesAtMost)
