-- ===== src/Consent/Client/Soundness.antt =====
-- What has to have happened for `CheckConsent` to allow.
use consent_plugin.Common.{
  String, ◌≡◌, ◌⊎◌, refl, Bool, true, false, Option, none, some, List, [], ◌∷◌, ◌++◌, arith, eq_iff,
  inl, inr, Some, Bool-cases, Option-cases, length, ◌==◌, ◌&&◌,
}
use consent_plugin.Failure.{Failure, ok, err, is_unauthorized}
use consent_plugin.Json.{Value}
use consent_plugin.Runtime.{Bytes, response, Runtime, World, Outcome-cases, Reply-cases}
use consent_plugin.Consent.{allow, ConsentRequest, ConsentResponse}
use consent_plugin.Consent.Record.{ConsentRecord, decode_consents}
use consent_plugin.Consent.Record.Authority.{Authorizes, any_granted_iff}
use consent_plugin.Consent.Cache.{Client}
use consent_plugin.Consent.Client.{with_host}
use consent_plugin.Consent.Client.Credentials.{credentials}
use consent_plugin.Consent.Client.Check.{
  consents_request, has_granted_consent, check_identified, resolve_user_identifier, check,
  check_consent,
}

module _ (rt : Runtime) (c : Client) where
  -- The exchange after `w`, the last one before `w'`, is the lookup of the identifier's consents with
  -- the token, and its answer is a 200 that lists a record which authorises the request.
  pub record Granted (req : ConsentRequest) (token identifier : String) (w w' : World)
      : Type 0 where
    pub body : Bytes
    pub value : Value
    pub records : List ConsentRecord
    pub asked : w'.sent ≡ w.sent ++ with_host c (consents_request rt c token identifier) ∷ []
    pub answered :
        rt.send (length w.sent) (with_host c (consents_request rt c token identifier))
        ≡ response 200 body
    pub parsed : rt.parse_json body ≡ some value
    pub decoded : decode_consents value ≡ some records
    pub authority : Some (Authorizes req) records

  has_granted_consent-Granted :
      (req : ConsentRequest) (token identifier : String) (w w' : World)
      → has_granted_consent rt c token identifier req w ≡ (ok true, w')
      → Granted req token identifier w w'
  unfolding has_granted_consent
  has_granted_consent-Granted req token identifier w w' h =
      let request = consents_request rt c token identifier in
      elim (Option-cases (rt.url_error request.url)) [
        | inr (f, e) ↦ ground arith
        | inl e ↦ elim (Reply-cases (rt.send (length w.sent) (with_host c request))) [
          | inl (f, g) ↦ ground arith
          | inr (inl (f, g)) ↦ ground arith
          | inr (inr (status, body, g)) ↦ elim (Option-cases (rt.parse_json body)) [
            | inl p ↦ ground arith
            | inr (value, p) ↦ elim (Option-cases (decode_consents value)) [
              | inl d ↦ ground arith
              | inr (records, d) ↦ record {
                body = body;
                value = value;
                records = records;
                asked = ground arith;
                answered = ground arith;
                parsed = p;
                decoded = d;
                authority = (any_granted_iff req records).0 (ground arith);
              }
            ]
          ]
        ]
      ]

  -- An approval: the credentials were obtained, the subject has a user identifier, and the lookup of
  -- its consents is the last exchange and granted the request. All of it happened in the first
  -- attempt, or in the one retry with a fresh token after the first was told 401.
  pub record Approved (req : ConsentRequest) (w w' : World) : Type 0 where
    pub force_login : Bool
    pub start : World
    pub token : String
    pub provider_sd : String
    pub identifier : String
    pub with_credentials : World
    pub identified : World
    pub attempt :
        ((force_login ≡ false) × (start ≡ w))
        ⊎ ((force_login ≡ true)
            × (c.static_token ≡ "")
            × ((f : Failure) × (check rt c req false w ≡ (err f, start))
                × (is_unauthorized f ≡ true)))
    pub obtained : credentials rt c force_login start ≡ (ok (token, provider_sd), with_credentials)
    pub resolved :
        resolve_user_identifier rt c req.subject provider_sd token with_credentials
        ≡ (ok (some identifier), identified)
    pub granted : Granted req token identifier identified w'

  abbrev Attempted : ConsentRequest → World → Bool → World → Type 0
  Attempted req w force start =
      ((force ≡ false) × (start ≡ w))
      ⊎ ((force ≡ true)
          × (c.static_token ≡ "")
          × ((f : Failure) × (check rt c req false w ≡ (err f, start))
              × (is_unauthorized f ≡ true)))

  check_identified-Granted :
      (req : ConsentRequest) (token : String) (found : Option String) (w w' : World)
      (resp : ConsentResponse)
      → check_identified rt c req token found w ≡ (ok resp, w')
      → resp.decision ≡ allow
      → (identifier : String) × (found ≡ some identifier) × Granted req token identifier w w'
  unfolding check_identified
  check_identified-Granted req token none w w' resp h a = ground arith
  check_identified-Granted req token (some identifier) w w' resp h a =
      elim (Outcome-cases (has_granted_consent rt c token identifier req w)) [
        | inl (f, v, e) ↦ ground arith
        | inr (granted, v, e) ↦
            (identifier, refl, has_granted_consent-Granted req token identifier w w' (ground arith))
      ]

  check-Approved :
      (req : ConsentRequest) (force : Bool) (w₀ w w' : World) (resp : ConsentResponse)
      → Attempted req w₀ force w
      → check rt c req force w ≡ (ok resp, w')
      → resp.decision ≡ allow
      → Approved req w₀ w'
  unfolding check
  check-Approved req force w₀ w w' resp tried h a =
      elim (Outcome-cases (credentials rt c force w)) [
        | inl (f, v, e) ↦ ground arith
        | inr ((token, sd), u, e) ↦
            elim (Outcome-cases (resolve_user_identifier rt c req.subject sd token u)) [
              | inl (f, v, e') ↦ ground arith
              | inr (found, v, e') ↦
                  let (identifier, is_found, granted) =
                    check_identified-Granted req token found v w' resp (ground arith) a in
                  record {
                    force_login = force;
                    start = w;
                    token = token;
                    provider_sd = sd;
                    identifier = identifier;
                    with_credentials = u;
                    identified = v;
                    attempt = tried;
                    obtained = e;
                    resolved = rw is_found at e';
                    granted = granted;
                  }
            ]
      ]

  -- CheckConsent allows only on evidence: whenever it answers allow, the answer rests on a lookup of
  -- the data owner's consents, made during this call and answered 200, that lists a granted record
  -- for this consumer, purpose and resource; the lookup was made for the identifier to which the
  -- owner resolved.
  pub check_consent-Approved :
      (req : ConsentRequest) (w w' : World) (resp : ConsentResponse)
      → check_consent rt c req w ≡ (ok resp, w')
      → resp.decision ≡ allow
      → Approved req w w'
  unfolding check_consent
  check_consent-Approved req w w' resp h a = elim (Bool-cases (req.subject == "")) [
    | inl e ↦ ground arith
    | inr e ↦ elim (Bool-cases (req.consumer == "")) [
      | inl e' ↦ ground arith
      | inr e' ↦ elim (Outcome-cases (check rt c req false w)) [
        | inr (r, v, k) ↦ check-Approved req false w w w' resp (inl (refl, refl)) (ground arith) a
        | inl (f, v, k) ↦ elim (Bool-cases (is_unauthorized f && (c.static_token == ""))) [
          | inr no_retry ↦ ground arith
          | inl again ↦ elim (Outcome-cases (check rt c req true v)) [
            | inl (f', v', k') ↦ ground arith
            | inr (r', v', k') ↦
                check-Approved req true w v w' resp
                  (inr (refl, ground (arith, eq_iff c.static_token ""), (f, k, ground arith)))
                  (ground arith) a
          ]
        ]
      ]
    ]
  ]
