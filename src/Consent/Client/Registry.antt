-- ===== src/Consent/Client/Registry.antt =====
-- internal/consent/client.go, `ParticipantSelfDescriptionByDID`: a participant's self-description
-- by its DID, through the participant registry and its cache.
use consent_plugin.Common.{
  ℕ, ◌+◌, String, Bool, true, false, not, ◌&&◌, Option, none, some, List, [], ◌∷◌, ◌==◌, ltb,
  if◌then◌else◌,
}
use Prim.Native.String
use consent_plugin.Common.Map.{get, put}
use consent_plugin.Common.Text.{◌<>◌}
use consent_plugin.Failure.{Failure, not_registered, Result, ok, err, is_unauthorized, plain}
use consent_plugin.Json.{Value}
use consent_plugin.Json.Decode.{names_field, into_string, into_slice, into_struct, ◌>>=◌ as ◌>>=?◌}
use consent_plugin.Runtime.{
  Bytes, HttpRequest, Runtime, ParticipantSdEntry, Exec, pure, raise, lift, ◌>>=◌, ◌>>◌, read_clock,
}
use consent_plugin.Consent.Cache.{
  Client, participant_cache_key, endpoint, participant_sd_cache_ttl, participant_sd_negative_ttl,
}
use consent_plugin.Consent.Client.{bearer, new_request, do_request, status_ok}
use consent_plugin.Consent.Client.Credentials.{credentials}

-- participantListEntry
pub record ParticipantListEntry : Type 0 where
  pub did : String
  pub self_description_url : String

set_participant : String → Value → ParticipantListEntry → Option ParticipantListEntry
set_participant k v p =
    if names_field k "did"
    then into_string p.did v >>=? (λ s. some (record p { did = s }))
    else if names_field k "selfDescriptionURL"
    then into_string p.self_description_url v
      >>=? (λ s. some (record p { self_description_url = s }))
    else some p

into_participants : List ParticipantListEntry → Value → Option (List ParticipantListEntry)
unfolding set_participant
into_participants =
    into_slice (into_struct set_participant (record { did = ""; self_description_url = "" }))

set_participants : String → Value → List ParticipantListEntry → Option (List ParticipantListEntry)
unfolding into_participants
set_participants k v old =
    if names_field k "participants" then into_participants old v else some old

-- decodeParticipants: a bare array, or else the list of a wrapper
unfoldable pub decode_participants : Value → Option (List ParticipantListEntry)
unfolding into_participants set_participants
decode_participants v = elim (into_participants [] v) [
  | some bare ↦ some bare
  | none ↦ into_struct set_participants [] v
]

-- the loop of lookupParticipantSD: "" where no entry is for the DID
unfoldable pub find_participant : String → List ParticipantListEntry → String
find_participant did [] = ""
find_participant did (p ∷ rest) =
    let later = find_participant did rest in
    if (p.did == did) && not (p.self_description_url == "") then p.self_description_url else later

-- logging.Redact
unfoldable pub redact : Runtime → String → String
redact rt identifier =
    if identifier == "" then "" else "id:" <> String.slice (rt.fingerprint identifier) 0 8

-- notRegistered
abbrev pub not_registered_error : Runtime → String → Failure
not_registered_error rt did = record {
  cause = not_registered;
  text =
      "consent client: participant not registered: no participant registered for did "
      <> redact rt did;
}

module _ (rt : Runtime) (c : Client) where
  abbrev pub participants_request : String → HttpRequest
  participants_request token = record {
    method = "GET";
    url = endpoint c "/participants";
    host = "";
    headers = bearer token;
    body = none;
  }

  abbrev participants_of : Bytes → Result (List ParticipantListEntry)
  participants_of body = elim (rt.parse_json body >>=? decode_participants) [
    | none ↦ err (plain "consent client: failed to unmarshal participants response")
    | some l ↦ ok l
  ]

  unfoldable pub lookup_participant_sd : String → Bool → Exec String
  unfolding credentials new_request do_request status_ok decode_participants find_participant
  lookup_participant_sd did force_login = do
    (token, _) ← credentials rt c force_login
    req ← lift (
        new_request rt "consent client: failed to create participants request: "
          (participants_request token))
    (status, body) ← do_request rt c req
    lift (status_ok "participants lookup" status)
    participants ← lift (participants_of body)
    pure (find_participant did participants)

  -- the entry of a DID, unless it has expired
  unfoldable pub cached_participant : String → Exec (Option ParticipantSdEntry)
  unfolding get read_clock participant_cache_key
  cached_participant did w = hit (get (participant_cache_key rt c did) w.participant_sd_cache) w
    where
      hit : Option ParticipantSdEntry → Exec (Option ParticipantSdEntry)
      hit none = pure none
      hit (some e) = do now ← read_clock rt; pure (if ltb now e.expiry then some e else none)

  abbrev entry_for : ℕ → String → ParticipantSdEntry
  entry_for now sd =
      if sd == ""
      then record {
        self_description_url = "";
        expiry = now + participant_sd_negative_ttl;
        unknown = true;
      }
      else record {
        self_description_url = sd;
        expiry = now + participant_sd_cache_ttl;
        unknown = false;
      }

  unfoldable pub remember_participant : String → String → Exec Unit
  unfolding read_clock put participant_cache_key
  remember_participant did sd = do
    now ← read_clock rt
    λ w. (
      ok tt,
      record w {
        participant_sd_cache =
            put (participant_cache_key rt c did) (entry_for now sd) w.participant_sd_cache;
      },
    )

  -- one retry with a fresh token
  unfoldable pub retry_lookup : String → Result String → Exec String
  unfolding lookup_participant_sd
  retry_lookup did (ok sd) = pure sd
  retry_lookup did (err f) =
      if is_unauthorized f && (c.static_token == "")
      then lookup_participant_sd did true
      else raise f

  abbrev surface : Result String → Result String
  surface (ok sd) = ok sd
  surface (err f) =
      if is_unauthorized f
      then err (plain "consent client: participant token rejected (401) on participants lookup")
      else err f

  unfoldable pub ask_registry : String → Exec String
  unfolding lookup_participant_sd retry_lookup
  ask_registry did w =
      let (first, w₁) = lookup_participant_sd did false w in
      let (last, w₂) = retry_lookup did first w₁ in (surface last, w₂)

  abbrev answer : String → ParticipantSdEntry → Exec String
  answer did e =
      if e.unknown then raise (not_registered_error rt did) else pure e.self_description_url

  unfoldable pub participant_self_description_by_did : String → Exec String
  unfolding cached_participant ask_registry remember_participant redact
  participant_self_description_by_did did =
      if did == "" then raise (plain "consent client: empty participant did") else do
        cached ← cached_participant did
        elim cached [
          | some e ↦ answer did e
          | none ↦ do
            sd ← ask_registry did
            remember_participant did sd
            if sd == "" then raise (not_registered_error rt did) else pure sd
        ]
