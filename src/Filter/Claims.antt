-- ===== src/Filter/Claims.antt =====
-- The claims that are checked, against those that the resolver made.
use mathlib.Core.Path.{subst}
use consent_plugin.Common.{
  ◌≤◌, String, ◌≡◌, ◌≢◌, ◌↔◌, ◌⊎◌, refl, inl, inr, true, none, some, List, [], ◌∷◌, arith, ◌==◌,
  eq_iff, ◌&&◌, Bool-cases, length, All, Some,
}
use consent_plugin.Failure.{ok, Result-cases}
use consent_plugin.Consent.{deny}
use consent_plugin.Config.{Config}
use consent_plugin.Resolver.{Claim}
use consent_plugin.Filter.{
  OwnerClaim, ResponseOutcome, owner_claim, was_seen, distinct_from, distinct_claims,
  check_purpose_scoping, fail_outcome,
}

-- The entry is for the owner and the resource of the claim.
abbrev pub Covers : Claim → OwnerClaim → Type 0
Covers claim c = (c.owner ≡ claim.owner_id) × (c.data_resource ≡ claim.data_resource)

abbrev SamePair : OwnerClaim → OwnerClaim → Type 0
SamePair a b = (a.owner ≡ b.owner) × (a.data_resource ≡ b.data_resource)

-- No two entries are for one pair.
abbrev pub IsDistinct : List OwnerClaim → Type 0
IsDistinct [] = Unit
IsDistinct (c ∷ rest) = All (λ d. ¬ SamePair c d) rest × IsDistinct rest

-- The list holds one entry for each pair that the resolver named, made from one of its claims, and
-- no entry twice.
pub record IsDigest (claims : List Claim) (result : List OwnerClaim) : Type 0 where
  pub complete : All (λ claim. Some (Covers claim) result) claims
  pub sound : All (λ c. Some (λ claim. owner_claim claim ≡ c) claims) result
  pub distinct : IsDistinct result
  pub named : All (λ c. c.owner ≢ "") result
  pub shorter : length result ≤ length claims

Seen : List (String × String) → String → String → Type 0
Seen [] owner resource = ⊥
Seen ((o, r) ∷ seen) owner resource = ((o ≡ owner) × (r ≡ resource)) ⊎ Seen seen owner resource

was_seen_iff :
    (owner resource : String) (seen : List (String × String))
    → (was_seen owner resource seen ≡ true) ↔ Seen seen owner resource
unfolding Seen
was_seen_iff owner resource [] = (λ h. cc, λ i. absurd i)
was_seen_iff owner resource ((o, r) ∷ seen) =
    let (there, back) = was_seen_iff owner resource seen in
    elim (Bool-cases ((o == owner) && (r == resource))) [
      | inl e ↦ (λ h. inl (ground (arith, eq_iff o owner, eq_iff r resource)), λ h. ground arith)
      | inr e ↦ (
        λ h. inr (there (ground arith)),
        elim [
          | inl (p, q) ↦ ground (arith, eq_iff o owner, eq_iff r resource)
          | inr later ↦ let known = back later in ground arith
        ],
      )
    ]

-- The digest of the claims left, where the pairs `seen` have been taken.
record IsRest (seen : List (String × String)) (claims : List Claim) (result : List OwnerClaim)
    : Type 0 where
  complete :
      All
        (λ claim. Seen seen claim.owner_id claim.data_resource ⊎ Some (Covers claim) result)
        claims
  sound : All (λ c. Some (λ claim. owner_claim claim ≡ c) claims) result
  distinct : IsDistinct result
  named : All (λ c. c.owner ≢ "") result
  fresh : All (λ c. ¬ Seen seen c.owner c.data_resource) result
  shorter : length result ≤ length claims

weaken_sound :
    (claim : Claim) (claims : List Claim) (l : List OwnerClaim)
    → All (λ c. Some (λ k. owner_claim k ≡ c) claims) l
    → All (λ c. Some (λ k. owner_claim k ≡ c) (claim ∷ claims)) l
weaken_sound claim claims [] h = tt
weaken_sound claim claims (c ∷ l) (p, h) = (inr p, weaken_sound claim claims l h)

weaken_complete :
    (seen : List (String × String)) (claim : Claim) (result : List OwnerClaim) (l : List Claim)
    → All
        (λ k.
          Seen ((claim.owner_id, claim.data_resource) ∷ seen) k.owner_id k.data_resource
          ⊎ Some (Covers k) result)
        l
    → All
        (λ k. Seen seen k.owner_id k.data_resource ⊎ Some (Covers k) (owner_claim claim ∷ result))
        l
unfolding Seen
weaken_complete seen claim result [] h = tt
weaken_complete seen claim result (k ∷ l) (p, h) = (
  elim p [
    | inl (inl same) ↦ inr (inl same)
    | inl (inr before) ↦ inl before
    | inr later ↦ inr (inr later)
  ],
  weaken_complete seen claim result l h,
)

fresh_distinct :
    (seen : List (String × String)) (claim : Claim) (l : List OwnerClaim)
    → All (λ c. ¬ Seen ((claim.owner_id, claim.data_resource) ∷ seen) c.owner c.data_resource) l
    → All (λ d. ¬ SamePair (owner_claim claim) d) l
      × All (λ c. ¬ Seen seen c.owner c.data_resource) l
unfolding Seen
fresh_distinct seen claim [] h = (tt, tt)
fresh_distinct seen claim (c ∷ l) (p, h) =
    let (others, older) = fresh_distinct seen claim l h in
    ((λ same. p (inl same), others), (λ before. p (inr before), older))

distinct_from-IsRest :
    (seen : List (String × String)) (claims : List Claim) (result : List OwnerClaim)
    → distinct_from seen claims ≡ ok result
    → IsRest seen claims result
unfolding distinct_from
distinct_from-IsRest seen [] [] h = record {
  complete = tt;
  sound = tt;
  distinct = tt;
  named = tt;
  fresh = tt;
  shorter = omega arith;
}
distinct_from-IsRest seen [] (c ∷ l) h = ground arith
distinct_from-IsRest seen (claim ∷ claims) result h = elim (Bool-cases (claim.owner_id == "")) [
  | inl e ↦ ground arith
  | inr e ↦ elim (Bool-cases (was_seen claim.owner_id claim.data_resource seen)) [
    | inl again ↦
        let r = distinct_from-IsRest seen claims result (ground arith) in
        record {
          complete =
              (inl ((was_seen_iff claim.owner_id claim.data_resource seen).0 again), r.complete);
          sound = weaken_sound claim claims result r.sound;
          distinct = r.distinct;
          named = r.named;
          fresh = r.fresh;
          shorter = omega (arith, r.shorter);
        }
    | inr is_new ↦
        let seen' = (claim.owner_id, claim.data_resource) ∷ seen in
        elim (Result-cases (distinct_from seen' claims)) [
          | inl (f, k) ↦ ground arith
          | inr (tail, k) ↦
              let r = distinct_from-IsRest seen' claims tail k in
              let same : owner_claim claim ∷ tail ≡ result = ground arith in
              let (others, older) = fresh_distinct seen claim tail r.fresh in
              subst (IsRest seen (claim ∷ claims)) same (record {
                complete =
                    (inr (inl (refl, refl)), weaken_complete seen claim tail claims r.complete);
                sound = (inl refl, weaken_sound claim claims tail r.sound);
                distinct = (others, r.distinct);
                named = (ground (arith, eq_iff claim.owner_id ""), r.named);
                fresh = (
                  λ s. ground (arith, (was_seen_iff claim.owner_id claim.data_resource seen).1 s),
                  older,
                );
                shorter = omega (arith, r.shorter);
              })
        ]
  ]
]

drop_seen :
    (result : List OwnerClaim) (l : List Claim)
    → All (λ k. Seen [] k.owner_id k.data_resource ⊎ Some (Covers k) result) l
    → All (λ k. Some (Covers k) result) l
unfolding Seen
drop_seen result [] h = tt
drop_seen result (k ∷ l) (p, h) =
    (elim p [ inl before ↦ absurd before | inr covered ↦ covered ], drop_seen result l h)

-- A digest that succeeds covers every claim: each pair of owner and resource that the resolver named
-- is checked exactly once, nothing else is, and no claim without an owner gets through.
pub distinct_claims-IsDigest :
    (claims : List Claim) (result : List OwnerClaim)
    → distinct_claims claims ≡ ok result
    → IsDigest claims result
unfolding distinct_claims
distinct_claims-IsDigest claims result h =
    let r = distinct_from-IsRest [] claims result h in
    record {
      complete = drop_seen result claims r.complete;
      sound = r.sound;
      distinct = r.distinct;
      named = r.named;
      shorter = r.shorter;
    }

-- With require_purpose the check goes on exactly if every entry names a purpose, without it always;
-- and where it stops, it denies, whatever fail_open says.
pub check_purpose_scoping_iff :
    (cfg : Config) (key : String) (claims : List OwnerClaim)
    → ((check_purpose_scoping cfg key claims ≡ none)
        ↔ (cfg.require_purpose ≡ true → All (λ c. c.purpose ≢ "") claims))
      × ((o : ResponseOutcome) → check_purpose_scoping cfg key claims ≡ some o → o.decision ≡ deny)
unfolding check_purpose_scoping fail_outcome
check_purpose_scoping_iff cfg key [] = ((λ h on. tt, λ h. refl), λ o h. ground arith)
check_purpose_scoping_iff cfg key (c ∷ rest) =
    let ((there, back), stops) = check_purpose_scoping_iff cfg key rest in
    elim (Bool-cases ((c.purpose == "") && cfg.require_purpose)) [
      | inl bad ↦ (
        (
          λ h. ground arith,
          λ h. absurd ((h (ground arith)).0 (ground (arith, eq_iff c.purpose ""))),
        ),
        λ o h. ground arith,
      )
      | inr fine ↦ (
        (
          λ h on. (ground (arith, eq_iff c.purpose ""), there (ground arith) on),
          λ h. let later = back (λ on. (h on).1) in ground arith,
        ),
        λ o h. stops o (ground arith),
      )
    ]
