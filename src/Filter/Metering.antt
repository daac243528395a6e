-- ===== src/Filter/Metering.antt =====
-- internal/plugin/consent.go: what the response phase counts before its outcome, that is, the calls
-- of the resolver and of the consent manager, and the claims without a purpose.
use consent_plugin.Common.{
  ℕ, ◌+◌, ◌^◌, ◌<◌, ◌≡◌, inl, inr, String, false, List, [], ◌∷◌, arith, ◌==◌, if◌then◌else◌,
  Bool-cases,
}
use consent_plugin.Common.Int.{ℤ}
use consent_plugin.Config.{Config}
use consent_plugin.Failure.{Result, ok, err}
use consent_plugin.Filter.{OwnerClaim}
use consent_plugin.Metrics.{FloatOps, Metrics, record_dependency_call, record_purpose_unconstrained}

-- outcomeOf
abbrev pub outcome_of : {A : Type 0} → Result A → String
outcome_of (err f) = "error"
outcome_of (ok a) = "success"

module _ {F S : Type 0} (fl : FloatOps F) where
  -- the call of the resolver, and the call of CheckConsent for an owner, each with its duration
  unfoldable pub meter_resolve : {A : Type 0} → Result A → ℤ → Metrics F S → Metrics F S
  unfolding record_dependency_call
  meter_resolve r duration m = record_dependency_call fl "owner_resolver" (outcome_of r) duration m

  unfoldable pub meter_check : {A : Type 0} → Result A → ℤ → Metrics F S → Metrics F S
  unfolding record_dependency_call
  meter_check r duration m = record_dependency_call fl "consent_manager" (outcome_of r) duration m

abbrev pub unscoped_claims : List OwnerClaim → ℕ
unscoped_claims [] = 0
unscoped_claims (claim ∷ claims) = (if claim.purpose == "" then 1 else 0) + unscoped_claims claims

module _ {F S : Type 0} where
  -- the loop of checkPurposeScoping, which a claim without a purpose ends where one is required
  unfoldable pub meter_scoping : Config → List OwnerClaim → Metrics F S → Metrics F S
  unfolding record_purpose_unconstrained
  meter_scoping cfg [] m = m
  meter_scoping cfg (claim ∷ claims) m =
      let unscoped = claim.purpose == "" in
      let next = if unscoped then record_purpose_unconstrained m else m in
      let rest = meter_scoping cfg claims next in
      if unscoped then (if cfg.require_purpose then m else rest) else rest

  -- Where no purpose is required, every claim without one is counted.
  pub meter_scoping-counts :
      (cfg : Config) (claims : List OwnerClaim) (m : Metrics F S)
      → cfg.require_purpose ≡ false
      → m.purpose_unconstrained + unscoped_claims claims < 2 ^ 64
      → (meter_scoping cfg claims m).purpose_unconstrained
        ≡ m.purpose_unconstrained + unscoped_claims claims
  unfolding meter_scoping record_purpose_unconstrained
  meter_scoping-counts cfg [] m off b = omega arith
  meter_scoping-counts cfg (claim ∷ claims) m off b = elim (Bool-cases (claim.purpose == "")) [
    | inl e ↦
        let counted = record_purpose_unconstrained m in
        ground (arith, meter_scoping-counts cfg claims counted off)
    | inr e ↦ ground (arith, meter_scoping-counts cfg claims m off)
  ]
