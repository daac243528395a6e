-- ===== src/Filter/Enforcement.antt =====
-- internal/plugin/consent.go, `ResponseFilter`: what follows from the outcome of a response.
pub mod Record
pub mod Effects
pub mod Examples
use consent_plugin.Common.{
  ℕ, ◌*◌, ◌^◌, String, Bool, true, false, Option, none, some, List, [], ◌∷◌, if◌then◌else◌,
}
use consent_plugin.Common.Arrangement.{TextSorter}
use consent_plugin.Common.Int.{ℤ, times64}
use consent_plugin.Common.Map.{Map, put}
use consent_plugin.Audit.{AuditConfig, Event, Emitter, emit}
use consent_plugin.Audit.Registry.{key, get_emitter}
use consent_plugin.Config.{Config}
use consent_plugin.Consent.{Decision, allow, deny, show_decision}
use consent_plugin.Filter.{ResponseOutcome}
use consent_plugin.Filter.Audit.{record_audit}
use consent_plugin.Filter.Denial.{Header, Written, deny_response}
use consent_plugin.Metrics.{Metrics, record_decision}

-- the audit.Config of a route
unfoldable pub audit_config : Config → AuditConfig
unfolding times64
audit_config cfg = record {
  endpoint = cfg.audit_otlp_endpoint;
  service_name = cfg.audit_service_name;
  timeout = times64 cfg.consent_api_timeout (10 ^ 6);
  headers = cfg.audit_otlp_headers;
}

-- the calls of Emit, the oldest first
unfoldable pub emit_all : List Event → Emitter → Emitter
unfolding emit
emit_all [] e = e
emit_all (ev ∷ evs) e = emit_all evs (emit ev e)

module _ {H : Type 0} (hd : Header H) where
  -- What ResponseFilter leaves: the metrics, the emitters, and the denial that it writes, none where
  -- the response passes unchanged.
  pub record Effect (F S : Type 0) : Type 0 where
    pub metrics : Metrics F S
    pub emitters : Map Emitter
    pub written : Option (Written hd)

  -- the denial of an outcome
  unfoldable pub denial_of : Config → Decision → H → Option (Written hd)
  unfolding deny_response
  denial_of cfg allow h = none
  denial_of cfg deny h = some (deny_response hd cfg h)

module _ (t : TextSorter) (show_duration : ℤ → String) where
  -- recordAudit on the emitters of the process: those of a route that audits change
  unfoldable pub audit_outcome : ℕ → Config → ResponseOutcome → Map Emitter → Map Emitter
  unfolding get_emitter key record_audit emit_all put
  audit_outcome now cfg o emitters =
      let (e, emitters') = get_emitter t show_duration (audit_config cfg) emitters in
      if cfg.audit_enabled
      then put (key t show_duration (audit_config cfg)) (emit_all (record_audit now cfg o) e)
          emitters'
      else emitters

  -- ResponseFilter, after `evaluate` has come to the outcome
  unfoldable pub response_filter :
      {H : Type 0} (hd : Header H) {F S : Type 0}
      → ℕ
      → Config
      → ResponseOutcome
      → H
      → Metrics F S
      → Map Emitter
      → Effect hd F S
  unfolding record_decision audit_outcome denial_of
  response_filter hd now cfg o h metrics emitters = record {
    metrics = record_decision (show_decision o.decision) o.fail_mode metrics;
    emitters = audit_outcome now cfg o emitters;
    written = denial_of hd cfg o.decision h;
  }
