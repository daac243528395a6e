-- ===== src/Consent/Client/Check.antt =====
-- internal/consent/client.go, `CheckConsent`: the two-call chain for one data owner.
use consent_plugin.Common.{
  ℕ, ◌+◌, String, Bool, true, false, not, ◌&&◌, Option, none, some, ◌==◌, nat_eq, ltb,
  if◌then◌else◌,
}
use consent_plugin.Common.Map.{Map, get, put}
use consent_plugin.Common.Text.{◌<>◌}
use consent_plugin.Failure.{Failure, Result, ok, err, is_unauthorized, plain}
use consent_plugin.Json.{str, obj, end, member}
use consent_plugin.Runtime.{
  Bytes, HttpRequest, Runtime, IdentifierEntry, Exec, pure, raise, lift, ◌>>=◌, ◌>>◌, read_clock,
}
use consent_plugin.Consent.{allow, deny, ConsentRequest, ConsentResponse}
use consent_plugin.Consent.Record.{decode_consents, any_granted}
use consent_plugin.Consent.Cache.{Client, identifier_cache_key, endpoint, identifier_cache_ttl}
use consent_plugin.Consent.Client.{
  participant_unauthorized, unexpected_status, json_content, bearer, decode_one, unmarshal,
  new_request, do_request, status_ok,
}
use consent_plugin.Consent.Client.Credentials.{credentials}

-- noGrantedConsentReason
unfoldable pub no_granted_consent_reason : ConsentRequest → String
no_granted_consent_reason req =
    "no granted consent for consumer "
    <> req.consumer
    <> (if req.purpose == "" then "" else " and purpose " <> req.purpose)
    <> (if req.data_resource == "" then "" else " covering resource " <> req.data_resource)

abbrev pub denial : String → ConsentResponse
denial reason = record { decision = deny; reason = reason }

abbrev pub approval : ConsentResponse
approval = record { decision = allow; reason = "" }

abbrev pub with_key : String → Map String → Map String
with_key key headers =
    if not (key == "") then put "x-visionstrust-consent-key" key headers else headers

abbrev pub with_token : String → Map String → Map String
with_token token headers =
    if not (token == "") then put "Authorization" ("Bearer " <> token) headers else headers

module _ (rt : Runtime) (c : Client) where
  abbrev pub search_request : String → String → String → HttpRequest
  search_request subject provider_sd token = record {
    method = "POST";
    url = endpoint c "/users/identifier/search";
    host = "";
    headers = with_token token (with_key c.consent_key json_content);
    body =
        some (obj (member "selfDescription" (str provider_sd) (member "email" (str subject) end)));
  }

  -- the cached identifier of a key, unless it has expired
  unfoldable pub cached_identifier : String → Exec (Option String)
  unfolding get read_clock
  cached_identifier key w = hit (get key w.identifier_cache) w
    where
      hit : Option IdentifierEntry → Exec (Option String)
      hit none = pure none
      hit (some e) = do
        now ← read_clock rt
        pure (if ltb now e.expiry then some e.user_identifier else none)

  unfoldable pub remember_identifier : String → String → Exec Unit
  unfolding read_clock put
  remember_identifier key identifier = do
    now ← read_clock rt
    λ w. (
      ok tt,
      record w {
        identifier_cache =
            put key (record { user_identifier = identifier; expiry = now + identifier_cache_ttl })
              w.identifier_cache;
      },
    )

  -- the reply to the identifier search
  unfoldable pub identifier_reply : String → ℕ → Bytes → Exec (Option String)
  unfolding unmarshal remember_identifier
  identifier_reply key status body =
      if nat_eq status 404
      then pure none
      else if nat_eq status 401
      then raise participant_unauthorized
      else if not (nat_eq status 200)
      then raise (unexpected_status "identifier search" status)
      else (do
        identifier ← lift (
            unmarshal rt "consent client: failed to unmarshal identifier search response"
              (decode_one "userIdentifier") body)
        if identifier == ""
            then pure none
            else do remember_identifier key identifier; pure (some identifier))

  unfoldable pub search_identifier : String → String → String → Exec (Option String)
  unfolding new_request do_request identifier_reply
  search_identifier subject provider_sd token = do
    req ← lift (
        new_request rt "consent client: failed to create identifier search request: "
          (search_request subject provider_sd token))
    (status, body) ← do_request rt c req
    identifier_reply (identifier_cache_key rt c provider_sd subject) status body

  -- resolveUserIdentifier: none where the subject is unknown
  unfoldable pub resolve_user_identifier : String → String → String → Exec (Option String)
  unfolding cached_identifier
  resolve_user_identifier subject provider_sd token = do
    cached ← cached_identifier (identifier_cache_key rt c provider_sd subject)
    elim cached [
      | some identifier ↦ pure (some identifier)
      | none ↦ search_identifier subject provider_sd token
    ]

  abbrev pub consents_request : String → String → HttpRequest
  consents_request token identifier = record {
    method = "GET";
    url = endpoint c ("/consents/participants/" <> rt.path_escape identifier) <> "?receipt=true";
    host = "";
    headers = bearer token;
    body = none;
  }

  unfoldable pub has_granted_consent : String → String → ConsentRequest → Exec Bool
  unfolding new_request do_request status_ok unmarshal
  has_granted_consent token identifier req = do
    request ← lift (
        new_request rt "consent client: failed to create consents request: "
          (consents_request token identifier))
    (status, body) ← do_request rt c request
    lift (status_ok "consents lookup" status)
    records ←
        lift (
          unmarshal rt "consent client: failed to unmarshal consents response" decode_consents body)
    pure (any_granted req records)

  -- what `check` does once the subject's identifier is known, or is not
  unfoldable pub check_identified : ConsentRequest → String → Option String → Exec ConsentResponse
  unfolding no_granted_consent_reason
  check_identified req token none = pure (denial "no user identifier for subject")
  check_identified req token (some identifier) = do
    granted ← has_granted_consent token identifier req
    pure (if granted then approval else denial (no_granted_consent_reason req))

  unfoldable pub check : ConsentRequest → Bool → Exec ConsentResponse
  unfolding check_identified
  check req force_login = do
    (token, provider_sd) ← credentials rt c force_login
    found ← resolve_user_identifier req.subject provider_sd token
    check_identified req token found

  abbrev pub token_rejected : Failure
  token_rejected = plain "consent client: participant token rejected (401)"

  -- the second test of CheckConsent
  abbrev pub surface : Result ConsentResponse → Result ConsentResponse
  surface (ok resp) = ok resp
  surface (err f) = if is_unauthorized f then err token_rejected else err f

  -- the first test of CheckConsent: one retry with a fresh token
  unfoldable pub retry_check : ConsentRequest → Result ConsentResponse → Exec ConsentResponse
  retry_check req (ok resp) = pure resp
  retry_check req (err f) =
      if is_unauthorized f && (c.static_token == "") then check req true else raise f

  unfoldable pub check_consent : ConsentRequest → Exec ConsentResponse
  unfolding retry_check
  check_consent req w =
      if req.subject == ""
      then (ok (denial "no subject in request"), w)
      else if req.consumer == ""
      then (ok (denial "no consuming participant identified"), w)
      else (let (first, w₁) = check req false w in
          let (last, w₂) = retry_check req first w₁ in (surface last, w₂))
