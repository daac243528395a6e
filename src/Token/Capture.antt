-- ===== src/Token/Capture.antt =====
-- From the request phase to the response phase.
use mathlib.Core.Path.{subst}
use consent_plugin.Common.{ℕ, ◌-◌, ◌≤◌, String, ◌≡◌, ◌≢◌, ◌↔◌, refl, sym, some, List, arith}
use consent_plugin.Common.Map.{Map}
use consent_plugin.Failure.{ok}
use consent_plugin.Json.{Value}
use consent_plugin.Runtime.{Runtime, World}
use consent_plugin.Config.{Config}
use consent_plugin.Context.{
  RequestContext, Store, Sorter, store_request_context, load_and_delete_request_context,
  request_context_ttl,
}
use consent_plugin.Context.Invariant.{IsValid, Call, run}
use consent_plugin.Context.Delivery.{SparesAll, delivery}
use consent_plugin.ClaimPath.{
  consumer_from_claims, claim_keys_to_decode, claim_path_root, requested,
}
use consent_plugin.ClaimPath.Projection.{consumer-requested}
use consent_plugin.Filter.Phase.{
  Response, Verdict, correlation_key, client_config_from_cfg, evaluate_with_resolver, evaluate,
}
use consent_plugin.Consent.Cache.{new_client}
use consent_plugin.Token.{
  Decoder, Request, extract_token, all_claims, decode_claims, captured_claims, request_context,
  request_filter,
}

captured :
    (d : Decoder) (cfg : Config) (header token : String) (all : Map Value)
    → extract_token header ≡ ok token
    → all_claims d token ≡ ok all
    → captured_claims d cfg header ≡ requested (claim_keys_to_decode cfg) all
unfolding captured_claims extract_token decode_claims
captured d cfg header token all h k = ground arith

-- From a header with a token that decodes, the request phase keeps what names the consumer: the
-- response phase finds the same consumer as in all the claims of the token, and none if there is
-- none, where the configured path starts with a claim's name.
pub captured-consumer :
    (d : Decoder) (cfg : Config) (header token consumer : String) (all : Map Value)
    → extract_token header ≡ ok token
    → all_claims d token ≡ ok all
    → cfg.consumer_claim ≢ ""
    → claim_path_root cfg.consumer_claim ≢ ""
    → (consumer_from_claims (captured_claims d cfg header) cfg.consumer_claim ≡ ok consumer)
      ↔ (consumer_from_claims all cfg.consumer_claim ≡ ok consumer)
captured-consumer d cfg header token consumer all h k given rooted =
    subst
      (λ m.
        (consumer_from_claims m cfg.consumer_claim ≡ ok consumer)
        ↔ (consumer_from_claims all cfg.consumer_claim ≡ ok consumer))
      (sym (captured d cfg header token all h k)) (consumer-requested cfg all consumer given rooted)

stored :
    (sorter : Sorter) (t : ℕ) (d : Decoder) (cfg : Config) (r : Request) (key : String) (s : Store)
    → correlation_key r.var_ ≡ some key
    → request_filter sorter t d cfg r s
      ≡ store_request_context sorter t key (request_context d cfg r) s
unfolding request_filter
stored sorter t d cfg r key s h = ground arith

evaluated :
    (rt : Runtime) (cfg : Config) (w : Response) (now : ℕ) (key : String) (ctx : RequestContext)
    (s : Store) (w₀ : World)
    → correlation_key w.var_ ≡ some key
    → (load_and_delete_request_context now key s).0 ≡ some ctx
    → let r = evaluate rt cfg w now s w₀ in
      ◌≡◌ {A = Verdict × World}
        (r.0.0, r.1)
        (evaluate_with_resolver cfg key rt (new_client (client_config_from_cfg cfg)) ctx w w₀)
unfolding evaluate
evaluated rt cfg w now key ctx s w₀ h k = rw (h, evaluate, k) refl

-- The response phase judges a response by the request that it answers: under one request id, and
-- from a valid store, evaluate comes to the verdict, with the exchanges, that evaluateWithResolver
-- comes to for the context that RequestFilter captured, with the client of the route, whatever
-- happens to the store in between, as long as the id is not used again, no other request meets a full
-- store, the janitor does not find the entry expired, and the response comes within the TTL.
pub handover :
    (sorter : Sorter) (rt : Runtime) (d : Decoder) (cfg : Config) (r : Request) (w : Response)
    (t now : ℕ) (key : String) (s : Store) (cs : List Call) (w₀ : World)
    → IsValid s
    → correlation_key r.var_ ≡ some key
    → correlation_key w.var_ ≡ some key
    → SparesAll sorter key t (request_filter sorter t d cfg r s) cs
    → now - t ≤ request_context_ttl
    → let phase = evaluate rt cfg w now (run sorter (request_filter sorter t d cfg r s) cs) w₀ in
      ◌≡◌ {A = Verdict × World}
        (phase.0.0, phase.1)
        (evaluate_with_resolver cfg key rt
          (new_client (client_config_from_cfg cfg))
          (request_context d cfg r)
          w
          w₀)
handover sorter rt d cfg r w t now key s cs w₀ v asked answered spared young =
    let same = stored sorter t d cfg r key s asked in
    let ctx = request_context d cfg r in
    evaluated rt cfg w now key ctx _ w₀ answered (
      subst (λ u. (load_and_delete_request_context now key (run sorter u cs)).0 ≡ some ctx)
        (sym same)
        (delivery sorter t now key ctx s cs v (subst (λ u. SparesAll sorter key t u cs) same spared)
          young))
