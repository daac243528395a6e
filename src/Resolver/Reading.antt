-- ===== src/Resolver/Reading.antt =====
-- What the resolver is told, and what its answers count for.
use consent_plugin.Common.{
  ◌<◌, String, ◌≡◌, ◌≢◌, ◌↔◌, refl, inl, inr, true, false, none, some, List, [], ◌∷◌, ◌++◌, arith,
  eq_iff, length, Option-cases,
}
use consent_plugin.Failure.{ok}
use consent_plugin.Json.{Value}
use consent_plugin.Runtime.{Bytes, response, Runtime, World, exchange, Reply-cases}
use consent_plugin.Consent.Client.{new_request}
use consent_plugin.Resolver.{
  Resource, Parties, Resolution, describe_body, decode_resolution, resolution_of, resolve_request,
  resolve,
}

no_json : ¬ (◌≡◌ {A = String} "none" "json")
no_json e = let k : false ≡ true = (eq_iff "none" "json").1 e in ground arith

no_opaque : ¬ (◌≡◌ {A = String} "none" "opaque")
no_opaque e = let k : false ≡ true = (eq_iff "none" "opaque").1 e in ground arith

json_not_opaque : ¬ (◌≡◌ {A = String} "json" "opaque")
json_not_opaque e = let k : false ≡ true = (eq_iff "json" "opaque").1 e in ground arith

filled : {A : Type 0} (x : A) (xs : List A) → (x ∷ xs) ≢ []
filled x xs e = cc

-- The three encodings keep three cases apart: "none" exactly for an empty payload, "json" exactly for
-- one that is JSON, with its value, and "opaque" exactly for the rest, with its positive size.
pub describe_body-distinguishes :
    (rt : Runtime) (payload : Bytes) (content_type : String)
    → let d = describe_body rt payload content_type in
      ((d.encoding ≡ "none") ↔ (payload ≡ []))
      × ((v : Value)
          → ((d.encoding ≡ "json") × (d.content ≡ some v))
            ↔ ((payload ≢ []) × (rt.parse_json payload ≡ some v)))
      × ((d.encoding ≡ "opaque") ↔ ((payload ≢ []) × (rt.parse_json payload ≡ none)))
      × (d.encoding ≡ "opaque" → (0 < d.size) × (d.size ≡ length payload))
unfolding describe_body
describe_body-distinguishes rt [] content_type = (
  ground arith,
  λ v. (λ (e, k). absurd (no_json e), λ h. absurd (h.0 refl)),
  (λ e. absurd (no_opaque e), λ h. absurd (h.0 refl)),
  λ e. absurd (no_opaque e),
)
describe_body-distinguishes rt (b ∷ bs) content_type =
    elim (Option-cases (rt.parse_json (b ∷ bs))) [
      | inl e ↦ (
        (λ h. ground (arith, no_opaque), λ h. absurd (filled b bs h)),
        λ v. ground arith,
        (λ h. (filled b bs, e), λ h. ground arith),
        λ h. ground arith,
      )
      | inr (v, e) ↦ (
        (λ h. ground (arith, no_json), λ h. absurd (filled b bs h)),
        λ w. (λ h. (filled b bs, ground arith), λ h. ground arith),
        (λ h. ground (arith, json_not_opaque), λ h. ground arith),
        λ h. ground (arith, json_not_opaque),
      )
    ]

-- The resolver's word is taken only from a 200 whose body decodes: a successful resolution was
-- answered that way by the one exchange made, and anything else is an error.
pub resolve-answered :
    (rt : Runtime) (url : String) (res : Resource) (p : Parties) (payload : Bytes) (w w' : World)
    (r : Resolution)
    → resolve rt url res p payload w ≡ (ok r, w')
    → let req = resolve_request rt url res p payload in
      (w'.sent ≡ w.sent ++ req ∷ [])
      × ((body : Bytes) × (value : Value) × (rt.send (length w.sent) req ≡ response 200 body)
          × (rt.parse_json body ≡ some value)
          × (decode_resolution value ≡ some r))
unfolding resolve new_request exchange resolution_of
resolve-answered rt url res p payload w w' r h =
    let req = resolve_request rt url res p payload in
    elim (Option-cases (rt.url_error url)) [
      | inr (f, e) ↦ ground arith
      | inl e ↦ elim (Reply-cases (rt.send (length w.sent) req)) [
        | inl (f, g) ↦ ground arith
        | inr (inl (f, g)) ↦ ground arith
        | inr (inr (status, body, g)) ↦ elim (Option-cases (rt.parse_json body)) [
          | inl k ↦ ground arith
          | inr (value, k) ↦ elim (Option-cases (decode_resolution value)) [
            | inl d ↦ ground arith
            | inr (r', d) ↦ (ground arith, (body, value, ground arith, ground arith, ground arith))
          ]
        ]
      ]
    ]
