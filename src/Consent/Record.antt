-- ===== src/Consent/Record.antt =====
-- internal/consent/client.go, the consent records: their decoding, and when one of them authorises
-- an access.
pub mod Authority
mod Examples
use consent_plugin.Common.{
  ℕ, String, Bool, true, false, not, ◌&&◌, ◌||◌, Option, none, some, List, [], ◌∷◌, ◌==◌,
  if◌then◌else◌, any,
}
use consent_plugin.Json.{Value, null, str, obj}
use consent_plugin.Json.Decode.{names_field, into_string, into_slice, into_struct, ◌>>=◌}
use consent_plugin.Consent.{ConsentRequest}

-- participantRef; `literal` is the field's value where it was a bare string.
pub record ParticipantRef : Type 0 where
  pub id : String
  pub did : String
  pub self_description_url : String
  pub literal : String

abbrev pub no_participant : ParticipantRef
no_participant = record { id = ""; did = ""; self_description_url = ""; literal = "" }

pub record Purpose : Type 0 where
  pub id : String
  pub purpose : String

pub record ConsentRecord : Type 0 where
  pub status : String
  pub resources : List String
  pub consumer : ParticipantRef
  pub data_consumer : ParticipantRef
  pub recipients : List String
  pub purposes : List Purpose

abbrev pub granted_status : String
granted_status = "granted"

-- one member of the object form; `literal` is unexported, so no member reaches it
set_participant_ref : String → Value → ParticipantRef → Option ParticipantRef
set_participant_ref k v p =
    if names_field k "_id"
    then (do s ← into_string p.id v; some (record p { id = s }))
    else if names_field k "did"
    then (do s ← into_string p.did v; some (record p { did = s }))
    else if names_field k "selfDescriptionURL"
    then (do s ← into_string p.self_description_url v; some (record p { self_description_url = s }))
    else some p

-- participantRef.UnmarshalJSON: a string first (`null` decodes into one, as ""), then an object
unfoldable pub into_participant_ref : ParticipantRef → Value → Option ParticipantRef
unfolding set_participant_ref
into_participant_ref p (str s) = some (record p { literal = s })
into_participant_ref p null = some (record p { literal = "" })
into_participant_ref p v = into_struct set_participant_ref no_participant v

unfoldable pub set_resource : String → Value → String → Option String
set_resource k v old = if names_field k "resource" then into_string old v else some old

unfoldable pub set_purpose : String → Value → Purpose → Option Purpose
set_purpose k v p =
    if names_field k "_id"
    then (do s ← into_string p.id v; some (record p { id = s }))
    else if names_field k "purpose"
    then (do s ← into_string p.purpose v; some (record p { purpose = s }))
    else some p

unfoldable pub set_record : String → Value → ConsentRecord → Option ConsentRecord
unfolding set_resource set_purpose into_participant_ref
set_record k v r =
    if names_field k "status"
    then (do s ← into_string r.status v; some (record r { status = s }))
    else if names_field k "data"
    then (do
      l ← into_slice (into_struct set_resource "") r.resources v
      some (record r { resources = l }))
    else if names_field k "consumer"
    then (do p ← into_participant_ref r.consumer v; some (record r { consumer = p }))
    else if names_field k "dataConsumer"
    then (do p ← into_participant_ref r.data_consumer v; some (record r { data_consumer = p }))
    else if names_field k "recipients"
    then (do l ← into_slice (into_string "") r.recipients v; some (record r { recipients = l }))
    else if names_field k "purposes"
    then (do
      l ← into_slice (into_struct set_purpose (record { id = ""; purpose = "" })) r.purposes v
      some (record r { purposes = l }))
    else some r

abbrev pub no_record : ConsentRecord
no_record = record {
  status = "";
  resources = [];
  consumer = no_participant;
  data_consumer = no_participant;
  recipients = [];
  purposes = [];
}

unfoldable pub set_consents : String → Value → List ConsentRecord → Option (List ConsentRecord)
unfolding set_record
set_consents k v old =
    if names_field k "consents"
    then into_slice (into_struct set_record no_record) old v
    else some old

-- participantConsentsResponse
unfoldable pub decode_consents : Value → Option (List ConsentRecord)
unfolding set_consents
decode_consents = into_struct set_consents []

-- participantRef.matches
unfoldable pub matches : ParticipantRef → String → Bool
matches p identity =
    if identity == ""
    then false
    else any (λ candidate. not (candidate == "") && (candidate == identity))
        (p.self_description_url ∷ p.id ∷ p.did ∷ p.literal ∷ [])

-- the last line of grantedTo
abbrev first_recipient_is : String → List String → Bool
first_recipient_is consumer [] = false
first_recipient_is consumer (r ∷ rest) = not (r == "") && (r == consumer)

-- consentRecord.grantedTo, coversPurpose and coversResource
unfoldable pub granted_to : ConsentRecord → String → Bool
unfolding matches
granted_to r consumer =
    if matches r.consumer consumer || matches r.data_consumer consumer
    then true
    else first_recipient_is consumer r.recipients

unfoldable pub covers_purpose : ConsentRecord → String → Bool
covers_purpose r purpose =
    if purpose == ""
    then true
    else any (λ (p : Purpose). (p.purpose == purpose) || (p.id == purpose)) r.purposes

unfoldable pub covers_resource : ConsentRecord → String → Bool
covers_resource r data_resource =
    if data_resource == "" then true else any (λ d. d == data_resource) r.resources

-- the loop of hasGrantedConsent
unfoldable pub any_granted : ConsentRequest → List ConsentRecord → Bool
unfolding granted_to covers_purpose covers_resource
any_granted req [] = false
any_granted req (r ∷ rest) =
    let later = any_granted req rest in
    if not (r.status == granted_status)
    then later
    else if granted_to r req.consumer
        && (covers_purpose r req.purpose && covers_resource r req.data_resource)
    then true
    else later
