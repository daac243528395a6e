-- ===== src/Filter/Enforcement/Examples.antt =====
-- A refused response of a route that audits.
use consent_plugin.Common.{
  ℕ, ◌+◌, ◌^◌, ◌<◌, ◌≡◌, ◌⊎◌, String, true, false, none, some, [], ◌∷◌, arith, if◌then◌else◌,
  length,
}
use consent_plugin.Common.Int.{ℤ}
use consent_plugin.Common.Lexicographic.{by_codes}
use consent_plugin.Common.Map.{get}
use consent_plugin.Audit.Registry.{get_emitter}
use consent_plugin.Audit.{new_emitter}
use consent_plugin.Config.{Config}
use consent_plugin.Config.Examples.{given}
use consent_plugin.Consent.{allow, deny, show_decision}
use consent_plugin.Filter.{ResponseOutcome}
use consent_plugin.Filter.Denial.{Header, Written}
use consent_plugin.Filter.Enforcement.{Effect, response_filter}
use consent_plugin.Filter.Enforcement.Record.{subjects, Recorded}
use consent_plugin.Filter.Enforcement.Effects.{emitter_of, IsDenialOf, response_filter-enforces}
use consent_plugin.Metrics.{no_metrics, is_pair, fail_mode_label, count_at}

abbrev audited : Config
audited = record given { audit_enabled = true; audit_otlp_endpoint = "http://otel:4318" }

abbrev refused : ResponseOutcome
refused = record {
  decision = deny;
  reason = "no granted consent";
  request_id = "r1";
  subject = "alice";
  resource = "/people/1";
  method = "GET";
  checked = record { subject = "alice"; resource = "p"; decision = deny; reason = "revoked" } ∷ [];
  fail_mode = "";
}

-- the headers of the example need no law
abbrev pub headers : Header String
headers = record { names = λ h. none; del = λ h n. h; set = λ h n v. n; canonical = λ n. n }

abbrev pub show_sample : ℤ → String
show_sample d = "5s"

abbrev left : Effect headers ℕ (Unit {0})
left = response_filter by_codes show_sample headers 7 audited refused "" no_metrics []

few_dropped :
    (emitter_of by_codes show_sample audited []).dropped + length (subjects refused refused.checked)
    < 2 ^ 64
unfolding get_emitter get new_emitter
few_dropped = omega arith

none_counted : count_at ("deny", "none") (no_metrics {F = ℕ} {S = Unit {0}}).decisions + 1 < 2 ^ 64
unfolding count_at
none_counted = omega arith

response_filter-enforces_example :
    ((refused.decision ≡ allow) × (left.written ≡ none)
      ⊎ (refused.decision ≡ deny)
        × ((x : Written headers) × (left.written ≡ some x) × IsDenialOf headers audited x))
    × (count_at ("deny", "none") left.metrics.decisions
        ≡ count_at ("deny", "none") (no_metrics {F = ℕ} {S = Unit {0}}).decisions
          + (if is_pair (show_decision deny, fail_mode_label "") ("deny", "none") then 1 else 0))
    × ((audited.audit_enabled ≡ true)
          × Recorded 7 refused
              (subjects refused refused.checked)
              (emitter_of by_codes show_sample audited [])
              (emitter_of by_codes show_sample audited left.emitters)
        ⊎ (audited.audit_enabled ≡ false) × (left.emitters ≡ []))
response_filter-enforces_example =
    response_filter-enforces by_codes show_sample headers 7 audited refused "" no_metrics []
      ("deny", "none") none_counted few_dropped
