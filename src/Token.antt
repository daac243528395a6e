-- ===== src/Token.antt =====
-- internal/jwt/extractor.go, and `RequestFilter` of internal/plugin/consent.go: what the request phase
-- keeps of the caller's token. The token is decoded, not verified.
pub mod Capture
mod Examples
use consent_plugin.Common.{
  ℕ, String, true, false, ◌&&◌, Option, none, some, List, [], ◌∷◌, ◌==◌, nat_eq, if◌then◌else◌,
  length,
}
use consent_plugin.Common.Map.{Map}
use consent_plugin.Common.Text.{split, itoa, strip_prefix, ◌<>◌}
use consent_plugin.Failure.{Result, ok, err, plain, wrap}
use consent_plugin.Json.{Value, null, obj, to_map}
use consent_plugin.Runtime.{Bytes}
use consent_plugin.Config.{Config}
use consent_plugin.Context.{RequestContext, Store, Sorter, store_request_context}
use consent_plugin.ClaimPath.{claim_keys_to_decode, requested, bind}
use consent_plugin.Filter.Phase.{correlation_key}

-- base64.RawURLEncoding.DecodeString, and encoding/json's reading of a text
pub record Decoder : Type 0 where
  pub decode_base64 : String → Result Bytes
  pub parse_json : Bytes → Option Value

-- ExtractToken
unfoldable pub extract_token : String → Result String
unfolding strip_prefix
extract_token header =
    if header == ""
    then err (plain "jwt extraction: header value is empty")
    else elim (strip_prefix "Bearer " header) [
      | none ↦ err (plain "jwt extraction: missing Bearer prefix")
      | some token ↦
          if token == ""
          then err (plain "jwt extraction: token is empty after removing Bearer prefix")
          else ok token
    ]

-- json.Unmarshal into a `map[string]interface{}`
abbrev into_claims : Option Value → Result (Map Value)
into_claims (some (obj ms)) = ok (to_map ms)
into_claims (some null) = ok []
into_claims _ = err (plain "jwt decoding: failed to parse payload JSON")

abbrev payload_of : Decoder → List String → Result (Map Value)
payload_of d (header ∷ payload ∷ signature ∷ []) = elim (d.decode_base64 payload) [
  | err f ↦ err (wrap "jwt decoding: failed to base64url-decode payload: " f)
  | ok bytes ↦ into_claims (d.parse_json bytes)
]
payload_of d parts = err (plain ("jwt decoding: expected 3 parts, got " <> itoa (length parts)))

-- all the claims of a token
unfoldable pub all_claims : Decoder → String → Result (Map Value)
all_claims d token = payload_of d (split b'.' token)

-- DecodeClaims
unfoldable pub decode_claims : Decoder → String → List String → Result (Map Value)
unfolding all_claims
decode_claims d token keys = bind (all_claims d token) (λ all. ok (requested keys all))

abbrev kept : Result (Map Value) → Map Value
kept (ok claims) = claims
kept (err f) = []

-- the claims that RequestFilter keeps of the configured header, nil where they cannot be had
unfoldable pub captured_claims : Decoder → Config → String → Map Value
unfolding extract_token decode_claims
captured_claims d cfg header =
    if header == ""
    then []
    else kept
        (bind (extract_token header) (λ token. decode_claims d token (claim_keys_to_decode cfg)))

-- A request as the runner offers it; `header` is Header().Get.
pub record Request : Type 0 where
  pub method : String
  pub path : String
  pub header : String → String
  pub var_ : String → Result String

abbrev pub request_context : Decoder → Config → Request → RequestContext
request_context d cfg r = record {
  method = r.method;
  path = r.path;
  jwt_claims = captured_claims d cfg (r.header cfg.jwt_header_name);
}

-- RequestFilter, at the time `now`
unfoldable pub request_filter : Sorter → ℕ → Decoder → Config → Request → Store → Store
request_filter sorter now d cfg r store = elim (correlation_key r.var_) [
  | none ↦ store
  | some key ↦ store_request_context sorter now key (request_context d cfg r) store
]
