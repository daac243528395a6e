-- ===== src/Consent/Client.antt =====
-- internal/consent/client.go, the calls: the credentials, the identifier search, the consents lookup
-- and the participant registry. The calls of one client run one after the other here; the mutexes
-- make each access to a cache atomic, and the entry's mutex makes `credentials` atomic for its key.
-- Debug logging (of the body of an unexpected status) is left out.
pub mod Registry
pub mod Credentials
pub mod Check
pub mod Soundness
pub mod Errors
pub mod Traffic
pub mod Examples
use consent_plugin.Common.{
  ℕ, ◌+◌, ◌<◌, String, Bool, true, false, not, ◌&&◌, ◌||◌, Option, none, some, List, [], ◌∷◌, ◌==◌,
  nat_eq, ltb, if◌then◌else◌,
}
use consent_plugin.Common.Int.{ℤ, pos, times64}
use consent_plugin.Common.Map.{Map, get, put}
use consent_plugin.Common.Text.{◌<>◌, itoa}
use consent_plugin.Failure.{
  Failure, Cause, other, unauthorized, no_credentials, Result, ok, err, is_unauthorized, wrap,
  plain,
}
use consent_plugin.Json.{Value, str, obj, Members, end, member}
use consent_plugin.Json.Decode.{names_field, into_string, into_int, into_struct}
use consent_plugin.Json.Decode
use consent_plugin.Runtime.{
  Bytes, HttpRequest, Reply, failed, unreadable, response, Runtime, CacheEntry, IdentifierEntry,
  World, Exec, pure, raise, lift, ◌>>=◌, ◌>>◌, read_clock, exchange,
}
use consent_plugin.Consent.{Decision, allow, deny, ConsentRequest, ConsentResponse}
use consent_plugin.Consent.Record.{ConsentRecord, decode_consents, any_granted}
use consent_plugin.Consent.Cache.{
  Client, cache_key, identifier_cache_key, endpoint, cache_for, identifier_cache_ttl, seconds,
}

abbrev pub participant_unauthorized : Failure
participant_unauthorized = record {
  cause = unauthorized;
  text = "consent client: participant token unauthorized";
}

abbrev pub no_credentials_configured : Failure
no_credentials_configured = record {
  cause = no_credentials;
  text = "consent client: no participant_token and no token_service_url configured";
}

-- unexpectedStatus
abbrev pub unexpected_status : String → ℕ → Failure
unexpected_status operation status =
    plain ("consent client: " <> operation <> " returned status " <> itoa status)

abbrev pub bearer : String → Map String
bearer token = ("Authorization", "Bearer " <> token) ∷ []

abbrev pub json_content : Map String
json_content = ("Content-Type", "application/json") ∷ []

-- tokenResponse
pub record TokenResponse : Type 0 where
  pub access_token : String
  pub token_type : String
  pub expires_in : ℤ

set_token : String → Value → TokenResponse → Option TokenResponse
set_token k v r =
    if names_field k "access_token"
    then Decode.◌>>=◌ (into_string r.access_token v) (λ s. some (record r { access_token = s }))
    else if names_field k "token_type"
    then Decode.◌>>=◌ (into_string r.token_type v) (λ s. some (record r { token_type = s }))
    else if names_field k "expires_in"
    then Decode.◌>>=◌ (into_int r.expires_in v) (λ n. some (record r { expires_in = n }))
    else some r

unfoldable pub decode_token : Value → Option TokenResponse
unfolding set_token
decode_token =
    into_struct set_token (record { access_token = ""; token_type = ""; expires_in = pos 0 })

-- a struct of one string, meResponse or identifierSearchResponse
unfoldable pub set_one : String → String → Value → String → Option String
set_one name k v old = if names_field k name then into_string old v else some old

unfoldable pub decode_one : String → Value → Option String
unfolding set_one
decode_one name = into_struct (set_one name) ""

-- json.Unmarshal, with the message of its caller
unfoldable pub unmarshal : {A : Type 0} → Runtime → String → (Value → Option A) → Bytes → Result A
unmarshal rt message decode body = elim (Decode.◌>>=◌ (rt.parse_json body) decode) [
  | none ↦ err (plain message)
  | some a ↦ ok a
]

-- http.NewRequestWithContext
unfoldable pub new_request : Runtime → String → HttpRequest → Result HttpRequest
new_request rt message req = elim (rt.url_error req.url) [
  | none ↦ ok req
  | some f ↦ err (wrap message f)
]

-- Client.do: the Host override, the exchange, and the body read whole
abbrev read_reply : Reply → Result (ℕ × Bytes)
read_reply (failed f) = err (wrap "consent client: HTTP request failed: " f)
read_reply (unreadable f) = err (wrap "consent client: failed to read response body: " f)
read_reply (response status body) = ok (status, body)

abbrev pub with_host : Client → HttpRequest → HttpRequest
with_host c req = if not (c.host == "") then record req { host = c.host } else req

-- the three outcomes of a 200, a 401 and any other status
unfoldable pub status_ok : String → ℕ → Result (Unit {0})
status_ok operation status =
    if nat_eq status 401
    then err participant_unauthorized
    else if not (nat_eq status 200)
    then err (unexpected_status operation status)
    else ok tt

module _ (rt : Runtime) (c : Client) where
  unfoldable pub do_request : HttpRequest → Exec (ℕ × Bytes)
  unfolding exchange
  do_request req = exchange rt (with_host c req) >>= λ reply. lift (read_reply reply)

  abbrev token_reply : Reply → Result (ℕ × Bytes)
  token_reply (failed f) = err (wrap "consent client: token service request failed: " f)
  token_reply (unreadable f) = err (wrap "consent client: failed to read token response: " f)
  token_reply (response status body) = ok (status, body)

  abbrev token_of : TokenResponse → Result (String × ℤ)
  token_of out =
      if out.access_token == ""
      then err (plain "consent client: token service returned no access token")
      else ok (out.access_token, times64 out.expires_in (seconds 1))

  abbrev pub token_request : HttpRequest
  token_request = record {
    method = "POST";
    url = c.token_service_url;
    host = "";
    headers = json_content;
    body = some (obj (member "audience" (str c.token_audience) end));
  }

  -- not `do_request`: neither the Host override nor the API prefix applies
  unfoldable pub fetch_token : Exec (String × ℤ)
  unfolding new_request unmarshal exchange
  fetch_token = do
    req ← lift (new_request rt "consent client: failed to create token request: " token_request)
    reply ← exchange rt req
    (status, body) ← lift (token_reply reply)
    if not (nat_eq status 200) then raise (unexpected_status "token service" status) else do
      out ←
          lift (unmarshal rt "consent client: failed to unmarshal token response" decode_token body)
      lift (token_of out)

  abbrev pub me_request : String → HttpRequest
  me_request token = record {
    method = "GET";
    url = endpoint c "/participants/me";
    host = "";
    headers = bearer token;
    body = none;
  }

  unfoldable pub fetch_provider_sd : String → Exec String
  unfolding new_request unmarshal do_request status_ok
  fetch_provider_sd token = do
    req ← lift (new_request rt "consent client: failed to create /me request: " (me_request token))
    (status, body) ← do_request req
    lift (status_ok "participant lookup (/me)" status)
    sd ← lift (
        unmarshal rt "consent client: failed to unmarshal /me response"
          (decode_one "selfDescriptionURL") body)
    if sd == "" then raise (plain "consent client: /me returned no selfDescriptionURL") else pure sd
