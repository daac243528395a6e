-- ===== src/Consent/Record/Authority.antt =====
-- When a consent record is authority for an access, stated without the code's tests, and that the
-- code decides it.
use consent_plugin.Common.{
  String, ◌≡◌, ◌≢◌, ◌↔◌, ◌⊎◌, refl, inl, inr, Bool, true, false, ◌&&◌, ◌||◌, List, [], ◌∷◌, arith,
  ◌==◌, eq_iff, if◌then◌else◌, any, any_iff, Some, Bool-cases,
}
use consent_plugin.Consent.{ConsentRequest}
use consent_plugin.Consent.Record.{
  ParticipantRef, Purpose, ConsentRecord, granted_status, matches, first_recipient_is, granted_to,
  covers_purpose, covers_resource, any_granted,
}

-- The reference carries the identity, by one of its four names.
abbrev pub Denotes : ParticipantRef → String → Type 0
Denotes p identity =
    (p.self_description_url ≡ identity)
    ⊎ (p.id ≡ identity)
    ⊎ (p.did ≡ identity)
    ⊎ (p.literal ≡ identity)

-- The first recipient, and no later one, is the consumer.
abbrev pub IsFirst : String → List String → Type 0
IsFirst consumer [] = ⊥
IsFirst consumer (r ∷ rest) = r ≡ consumer

abbrev pub NamesConsumer : ConsentRecord → String → Type 0
NamesConsumer r consumer =
    Denotes r.consumer consumer ⊎ Denotes r.data_consumer consumer ⊎ IsFirst consumer r.recipients

-- The record is granted, to a consumer that the request names, for the request's purpose and
-- resource where it has them.
pub record Authorizes (req : ConsentRequest) (r : ConsentRecord) : Type 0 where
  pub granted : r.status ≡ "granted"
  pub named : req.consumer ≢ ""
  pub consumer : NamesConsumer r req.consumer
  pub purpose :
      (req.purpose ≡ "")
      ⊎ Some (λ (p : Purpose). (p.purpose ≡ req.purpose) ⊎ (p.id ≡ req.purpose)) r.purposes
  pub resource : (req.data_resource ≡ "") ⊎ Some (λ d. d ≡ req.data_resource) r.resources

matches_iff :
    (p : ParticipantRef) (identity : String)
    → (matches p identity ≡ true) ↔ ((identity ≢ "") × Denotes p identity)
unfolding matches
matches_iff p identity = ground (
  arith,
  eq_iff identity "",
  eq_iff p.self_description_url "",
  eq_iff p.self_description_url identity,
  eq_iff p.id "",
  eq_iff p.id identity,
  eq_iff p.did "",
  eq_iff p.did identity,
  eq_iff p.literal "",
  eq_iff p.literal identity,
)

first_recipient_is-IsFirst :
    (consumer : String) (rs : List String)
    → (first_recipient_is consumer rs ≡ true) ↔ ((consumer ≢ "") × IsFirst consumer rs)
first_recipient_is-IsFirst consumer [] = ground arith
first_recipient_is-IsFirst consumer (r ∷ rest) =
    ground (arith, eq_iff r "", eq_iff r consumer, eq_iff consumer "")

one_of_three :
    {N P Q R : Type 0} (a b c : Bool)
    → (a ≡ true) ↔ (N × P)
    → (b ≡ true) ↔ (N × Q)
    → (c ≡ true) ↔ (N × R)
    → ((if a || b then true else c) ≡ true) ↔ (N × (P ⊎ Q ⊎ R))
one_of_three true b c p q r = (λ _. ((p.0 refl).0, inl (p.0 refl).1), λ _. refl)
one_of_three false true c p q r = (λ _. ((q.0 refl).0, inr (inl (q.0 refl).1)), λ _. refl)
one_of_three false false c p q r = (
  (λ h. ((r.0 h).0, inr (inr (r.0 h).1))),
  λ (n, d). elim d [
    | inl x ↦ cc (p.1 (n, x))
    | inr (inl x) ↦ cc (q.1 (n, x))
    | inr (inr x) ↦ r.1 (n, x)
  ],
)

-- A record is granted to a consumer exactly when the consumer has a name and the record denotes it
-- as its consumer, as its data consumer, or as its first recipient.
pub granted_to_iff :
    (r : ConsentRecord) (consumer : String)
    → (granted_to r consumer ≡ true) ↔ ((consumer ≢ "") × NamesConsumer r consumer)
unfolding granted_to
granted_to_iff r consumer =
    one_of_three (matches r.consumer consumer) (matches r.data_consumer consumer)
      (first_recipient_is consumer r.recipients) (matches_iff r.consumer consumer)
      (matches_iff r.data_consumer consumer) (first_recipient_is-IsFirst consumer r.recipients)

covers_purpose_iff :
    (r : ConsentRecord) (purpose : String)
    → (covers_purpose r purpose ≡ true) ↔ (
        (purpose ≡ "")
        ⊎ Some (λ (p : Purpose). (p.purpose ≡ purpose) ⊎ (p.id ≡ purpose)) r.purposes)
unfolding covers_purpose
covers_purpose_iff r purpose = ground (
  arith,
  eq_iff purpose "",
  any_iff (λ (p : Purpose). (p.purpose == purpose) || (p.id == purpose))
      (λ (p : Purpose). (p.purpose ≡ purpose) ⊎ (p.id ≡ purpose))
      (λ p. ground (arith, eq_iff p.purpose purpose, eq_iff p.id purpose)) r.purposes,
)

covers_resource_iff :
    (r : ConsentRecord) (d : String)
    → (covers_resource r d ≡ true) ↔ ((d ≡ "") ⊎ Some (λ c. c ≡ d) r.resources)
unfolding covers_resource
covers_resource_iff r d =
    ground (arith, eq_iff d "", any_iff (λ c. c == d) (λ c. c ≡ d) (λ c. eq_iff c d) r.resources)

authorizes : ConsentRequest → ConsentRecord → Bool
authorizes req r =
    (r.status == granted_status)
    && (granted_to r req.consumer
        && (covers_purpose r req.purpose && covers_resource r req.data_resource))

authorizes_iff :
    (req : ConsentRequest) (r : ConsentRecord) → (authorizes req r ≡ true) ↔ Authorizes req r
unfolding authorizes
authorizes_iff req r = ground (
  arith,
  eq_iff r.status granted_status,
  granted_to_iff r req.consumer,
  covers_purpose_iff r req.purpose,
  covers_resource_iff r req.data_resource,
)

any_granted-any :
    (req : ConsentRequest) (rs : List ConsentRecord) → any_granted req rs ≡ any (authorizes req) rs
unfolding any_granted authorizes
any_granted-any req [] = refl
any_granted-any req (r ∷ rest) = ground (arith, any_granted-any req rest)

-- The check over a subject's consents succeeds exactly when one of them authorises the access.
pub any_granted_iff :
    (req : ConsentRequest) (rs : List ConsentRecord)
    → (any_granted req rs ≡ true) ↔ Some (Authorizes req) rs
any_granted_iff req rs =
    rw any_granted-any (any_iff (authorizes req) (Authorizes req) (authorizes_iff req) rs)

not_authorized :
    (req : ConsentRequest) (rs : List ConsentRecord)
    → req.consumer ≡ ""
    → ¬ Some (Authorizes req) rs
not_authorized req [] e i = i
not_authorized req (r ∷ rest) e (inl a) = a.named e
not_authorized req (r ∷ rest) e (inr i) = not_authorized req rest e i

-- Whatever consents there are, none is authority for a request that names no consumer.
pub any_granted-no_consumer :
    (req : ConsentRequest) (rs : List ConsentRecord)
    → req.consumer ≡ ""
    → any_granted req rs ≡ false
any_granted-no_consumer req rs e = elim (Bool-cases (any_granted req rs)) [
  | inl h ↦ absurd (not_authorized req rs e ((any_granted_iff req rs).0 h))
  | inr h ↦ h
]
