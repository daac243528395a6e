-- ===== src/Consent/Cache/Keys.antt =====
-- The cache keys identify what they stand for, and the bounds of the cached lifetimes.
use consent_plugin.Common.{
  ℕ, zero, suc, ◌+◌, ◌≤◌, ◌<◌, String, ◌≡◌, ◌≢◌, ap, inl, inr, List, [], ◌∷◌, arith, ◌==◌, eq_iff,
  All, Bool-cases,
}
use consent_plugin.Common.Int.{ℤ, pos, negsuc}
use consent_plugin.Common.Join.{NoNul, join_injective}
use consent_plugin.Runtime.{Runtime}
use consent_plugin.Consent.Cache.{Client, hash_secret, cache_key, cache_for}

hash_secret_injective :
    (rt : Runtime) (a b : String)
    → ((s : String) → rt.fingerprint s ≢ "")
    → (rt.fingerprint a ≡ rt.fingerprint b → a ≡ b)
    → hash_secret rt a ≡ hash_secret rt b
    → a ≡ b
unfolding hash_secret
hash_secret_injective rt a b filled same h =
    ground (arith, filled a, filled b, eq_iff a "", eq_iff b "")

-- What the credential cache distinguishes: the configuration without the token's lifetime and the
-- timeout.
pub record SameCredential (c d : Client) : Type 0 where
  pub base_url : c.base_url ≡ d.base_url
  pub host : c.host ≡ d.host
  pub api_prefix : c.api_prefix ≡ d.api_prefix
  pub token_audience : c.token_audience ≡ d.token_audience
  pub token_service_url : c.token_service_url ≡ d.token_service_url
  pub provider_sd : c.provider_sd ≡ d.provider_sd
  pub static_token : c.static_token ≡ d.static_token
  pub consent_key : c.consent_key ≡ d.consent_key

-- The open fields of a client hold no NUL.
pub record IsPrintable (c : Client) : Type 0 where
  pub base_url : NoNul c.base_url
  pub host : NoNul c.host
  pub api_prefix : NoNul c.api_prefix
  pub token_audience : NoNul c.token_audience
  pub token_service_url : NoNul c.token_service_url
  pub provider_sd : NoNul c.provider_sd

-- The fingerprint of a text is not empty and holds no NUL (it is hexadecimal).
pub record IsHex (rt : Runtime) : Type 0 where
  pub filled : (s : String) → rt.fingerprint s ≢ ""
  pub no_nul : (s : String) → NoNul (rt.fingerprint s)

abbrev parts : Runtime → Client → List String
parts rt c =
    c.base_url
    ∷ c.host
    ∷ c.api_prefix
    ∷ c.token_audience
    ∷ c.token_service_url
    ∷ c.provider_sd
    ∷ hash_secret rt c.static_token
    ∷ hash_secret rt c.consent_key
    ∷ []

hash_secret-NoNul : (rt : Runtime) (s : String) → IsHex rt → NoNul (hash_secret rt s)
unfolding hash_secret
hash_secret-NoNul rt s h = elim (Bool-cases (s == "")) [
  | inl e ↦ rw e tt
  | inr e ↦ rw e (h.no_nul s)
]

parts-NoNul : (rt : Runtime) (c : Client) → IsHex rt → IsPrintable c → All NoNul (parts rt c)
parts-NoNul rt c h p = (
  p.base_url,
  (
    p.host,
    (
      p.api_prefix,
      (
        p.token_audience,
        (
          p.token_service_url,
          (
            p.provider_sd,
            (hash_secret-NoNul rt c.static_token h, (hash_secret-NoNul rt c.consent_key h, tt)),
          ),
        ),
      ),
    ),
  ),
)

nth : List String → ℕ → String
nth [] n = ""
nth (s ∷ ss) zero = s
nth (s ∷ ss) (suc n) = nth ss n

-- Two clients share a cached credential only if they are the same credential: if the keys agree, so
-- do all the fields on which a token or a self-description can depend. It holds for clients whose
-- open fields hold no NUL, where fingerprints are not empty and hold none either, and where the two
-- static tokens, and the two consent keys, are equal if their fingerprints are.
pub cache_key_injective :
    (rt : Runtime) (c d : Client)
    → IsHex rt
    → (rt.fingerprint c.static_token ≡ rt.fingerprint d.static_token
        → c.static_token ≡ d.static_token)
    → (rt.fingerprint c.consent_key ≡ rt.fingerprint d.consent_key → c.consent_key ≡ d.consent_key)
    → IsPrintable c
    → IsPrintable d
    → cache_key rt c ≡ cache_key rt d
    → SameCredential c d
unfolding cache_key nth
cache_key_injective rt c d hex token key p q h =
    let same : parts rt c ≡ parts rt d =
      join_injective _ _ _ _ (parts-NoNul rt c hex p) (parts-NoNul rt d hex q) h in
    record {
      base_url = ap (λ l. nth l 0) same;
      host = ap (λ l. nth l 1) same;
      api_prefix = ap (λ l. nth l 2) same;
      token_audience = ap (λ l. nth l 3) same;
      token_service_url = ap (λ l. nth l 4) same;
      provider_sd = ap (λ l. nth l 5) same;
      static_token =
          hash_secret_injective rt c.static_token d.static_token hex.filled token
            (ap (λ l. nth l 6) same);
      consent_key =
          hash_secret_injective rt c.consent_key d.consent_key hex.filled key
            (ap (λ l. nth l 7) same);
    }

-- The time for which a token is put into the cache is positive and at most the cap of the client
-- that fetched it, for a positive cap; and where the service reported a positive lifetime it is at
-- most that, and ends sixty seconds before it for a lifetime of more than sixty seconds under a cap of
-- more than sixty seconds.
pub cache_for_bounds :
    (lifetime : ℤ) (max_lifetime : ℕ)
    → 0 < max_lifetime
    → (0 < cache_for lifetime max_lifetime)
      × (cache_for lifetime max_lifetime ≤ max_lifetime)
      × ((n : ℕ)
          → lifetime ≡ pos n
          → 0 < n
          → (cache_for lifetime max_lifetime ≤ n)
            × (60_000_000_000 < n
                → 60_000_000_000 < max_lifetime
                → cache_for lifetime max_lifetime + 60_000_000_000 ≤ n))
unfolding cache_for
cache_for_bounds (pos n) max_lifetime h = (
  ground arith,
  ground arith,
  λ m e k. let same = pos_injective n m e in (ground arith, λ long roomy. ground arith),
)
  where
    pos_injective : (a b : ℕ) → pos a ≡ pos b → a ≡ b
    pos_injective a b e = cc
cache_for_bounds (negsuc n) max_lifetime h = (ground arith, ground arith, λ m e k. cc)
