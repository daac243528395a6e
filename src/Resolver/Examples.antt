-- ===== src/Resolver/Examples.antt =====
-- The resolver at a concrete service.
use consent_plugin.Common.{ℕ, ◌<◌, true, ◌≡◌, ◌≢◌, ◌↔◌, refl, none, some, [], ◌∷◌, ◌++◌, length}
use consent_plugin.Failure.{ok}
use consent_plugin.Json.{Value}
use consent_plugin.Json.Decode.{
  into_struct, into_members, names_field, fold_code, into_string, into_bool, into_slice, into_items,
}
use consent_plugin.Runtime.{Bytes, World, response, exchange}
use consent_plugin.Runtime.Sample.{sample, fresh}
use consent_plugin.Consent.Client.{new_request}
use consent_plugin.Resolver.{
  Resource, Parties, Resolution, describe_body, decode_resolution, set_resolution, set_claim,
  into_claim, resolution_of, resolve_request, resolve,
}
use consent_plugin.Resolver.Reading.{describe_body-distinguishes, resolve-answered}

abbrev resource : Resource
resource = record { service = "s"; method = "GET"; path = "/path"; content_type = "text/plain" }

abbrev parties : Parties
parties = record { consumer = "http://consumer"; provider = "http://me" }

abbrev resolution : Resolution
resolution = record {
  consent_required = true;
  claims = record { owner_id = "alice"; data_resource = ""; purpose = "" } ∷ [];
}

abbrev after : World
after = (resolve sample "http://resolver" resource parties (7 ∷ []) fresh).1

resolved : resolve sample "http://resolver" resource parties (7 ∷ []) fresh ≡ (ok resolution, after)
unfolding resolve new_request exchange resolution_of decode_resolution set_resolution set_claim
    into_claim into_struct into_members names_field fold_code into_string into_bool into_slice
    into_items
resolved = refl

resolve-answered_example :
    let req = resolve_request sample "http://resolver" resource parties (7 ∷ []) in
    (after.sent ≡ fresh.sent ++ req ∷ [])
    × ((body : Bytes) × (value : Value) × (sample.send (length fresh.sent) req ≡ response 200 body)
        × (sample.parse_json body ≡ some value)
        × (decode_resolution value ≡ some resolution))
resolve-answered_example =
    resolve-answered sample "http://resolver" resource parties (7 ∷ []) fresh after resolution
      resolved

describe_body-distinguishes_example :
    let d = describe_body sample (7 ∷ []) "text/plain" in
    ((d.encoding ≡ "none") ↔ (◌≡◌ {A = Bytes} (7 ∷ []) []))
    × ((v : Value)
        → ((d.encoding ≡ "json") × (d.content ≡ some v))
          ↔ ((◌≢◌ {A = Bytes} (7 ∷ []) []) × (sample.parse_json (7 ∷ []) ≡ some v)))
    × ((d.encoding ≡ "opaque")
        ↔ ((◌≢◌ {A = Bytes} (7 ∷ []) []) × (sample.parse_json (7 ∷ []) ≡ none)))
    × (d.encoding ≡ "opaque" → (0 < d.size) × (d.size ≡ length {A = ℕ} (7 ∷ [])))
describe_body-distinguishes_example = describe_body-distinguishes sample (7 ∷ []) "text/plain"
