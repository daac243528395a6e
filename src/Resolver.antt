-- ===== src/Resolver.antt =====
-- internal/ownerresolver/client.go: asking the owner resolver whose data a payload is.
pub mod Reading
mod Examples
use consent_plugin.Common.{
  ℕ, zero, String, Bool, true, false, not, ◌&&◌, Option, none, some, List, [], ◌∷◌, ◌==◌, nat_eq,
  if◌then◌else◌, length,
}
use consent_plugin.Common.Text.{◌<>◌, itoa}
use consent_plugin.Failure.{Failure, Result, ok, err, wrap, plain}
use consent_plugin.Json.{Value, str, num, obj, Members, end, member}
use consent_plugin.Json.Decode.{into_string, into_bool, into_slice, into_struct, names_field}
use consent_plugin.Json.Decode
use consent_plugin.Runtime.{
  Bytes, HttpRequest, Reply, failed, unreadable, response, Runtime, Exec, lift, ◌>>=◌, exchange,
}
use consent_plugin.Consent.Client.{json_content, new_request}

pub record Claim : Type 0 where
  pub owner_id : String
  pub data_resource : String
  pub purpose : String

-- `Result` of the package
pub record Resolution : Type 0 where
  pub consent_required : Bool
  pub claims : List Claim

-- `Resource`, and the resourceDescriptor that it becomes
pub record Resource : Type 0 where
  pub service : String
  pub method : String
  pub path : String
  pub content_type : String

pub record Parties : Type 0 where
  pub consumer : String
  pub provider : String

-- Parties.IsZero
abbrev pub is_zero : Parties → Bool
is_zero p = (p.consumer == "") && (p.provider == "")

-- bodyDescriptor; the content is the payload's JSON.
pub record BodyDescriptor : Type 0 where
  pub encoding : String
  pub content : Option Value
  pub content_type : String
  pub size : ℕ

-- describeBody; json.Valid holds of the texts that the decoder can read
unfoldable pub describe_body : Runtime → Bytes → String → BodyDescriptor
describe_body rt [] content_type = record {
  encoding = "none";
  content = none;
  content_type = "";
  size = 0;
}
describe_body rt (b ∷ bs) content_type = elim (rt.parse_json (b ∷ bs)) [
  | some v ↦ record { encoding = "json"; content = some v; content_type = ""; size = 0 }
  | none ↦ record {
    encoding = "opaque";
    content = none;
    content_type = content_type;
    size = length (b ∷ bs);
  }
]

-- a string member with `omitempty`
abbrev text_member : String → String → Members → Members
text_member key s rest = if s == "" then rest else member key (str s) rest

abbrev content_member : Option Value → Members → Members
content_member none rest = rest
content_member (some v) rest = member "content" v rest

-- resolveRequest, as json.Marshal writes it
unfoldable pub envelope : Resource → Parties → BodyDescriptor → Value
envelope res p body =
    let descriptor = text_member "service" res.service (
      text_member "method" res.method
        (text_member "path" res.path (text_member "contentType" res.content_type end))) in
    let described = member "encoding" (str body.encoding) (
      content_member body.content (
        text_member "contentType" body.content_type
          (if nat_eq body.size 0 then end else member "size" (num (itoa body.size)) end))) in
    let parties = text_member "consumer" p.consumer (text_member "provider" p.provider end) in
    let tail = member "body" (obj described) end in
    obj (
      member "resource" (obj descriptor)
        (if is_zero p then tail else member "parties" (obj parties) tail))

unfoldable pub set_claim : String → Value → Claim → Option Claim
set_claim k v c =
    if names_field k "ownerId"
    then Decode.◌>>=◌ (into_string c.owner_id v) (λ s. some (record c { owner_id = s }))
    else if names_field k "dataResource"
    then Decode.◌>>=◌ (into_string c.data_resource v) (λ s. some (record c { data_resource = s }))
    else if names_field k "purpose"
    then Decode.◌>>=◌ (into_string c.purpose v) (λ s. some (record c { purpose = s }))
    else some c

unfoldable pub into_claim : Value → Option Claim
unfolding set_claim
into_claim = into_struct set_claim (record { owner_id = ""; data_resource = ""; purpose = "" })

unfoldable pub set_resolution : String → Value → Resolution → Option Resolution
unfolding into_claim
set_resolution k v r =
    if names_field k "consentRequired"
    then Decode.◌>>=◌ (into_bool r.consent_required v)
        (λ b. some (record r { consent_required = b }))
    else if names_field k "claims"
    then Decode.◌>>=◌ (into_slice into_claim r.claims v) (λ l. some (record r { claims = l }))
    else some r

unfoldable pub decode_resolution : Value → Option Resolution
unfolding set_resolution
decode_resolution = into_struct set_resolution (record { consent_required = false; claims = [] })

-- the reading of the reply
unfoldable pub resolution_of : Runtime → Reply → Result Resolution
unfolding decode_resolution
resolution_of rt (failed f) = err (wrap "owner-resolver: request failed: " f)
resolution_of rt (unreadable f) = err (wrap "owner-resolver: read response: " f)
resolution_of rt (response status body) =
    if not (nat_eq status 200)
    then err (plain ("owner-resolver: status " <> itoa status))
    else elim (Decode.◌>>=◌ (rt.parse_json body) decode_resolution) [
      | none ↦ err (plain "owner-resolver: decode response")
      | some r ↦ ok r
    ]

abbrev pub resolve_request : Runtime → String → Resource → Parties → Bytes → HttpRequest
resolve_request rt url res p payload = record {
  method = "POST";
  url = url;
  host = "";
  headers = json_content;
  body = some (envelope res p (describe_body rt payload res.content_type));
}

-- Client.Resolve, for the client of `url`
unfoldable pub resolve : Runtime → String → Resource → Parties → Bytes → Exec Resolution
unfolding new_request exchange resolution_of
resolve rt url res p payload = do
  req ←
      lift
        (new_request rt "owner-resolver: create request: " (resolve_request rt url res p payload))
  reply ← exchange rt req
  lift (resolution_of rt reply)
