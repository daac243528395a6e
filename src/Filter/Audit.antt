-- ===== src/Filter/Audit.antt =====
-- internal/plugin/consent.go, `recordAudit`: the events that a response leaves in the audit log.
pub mod Agreement
use consent_plugin.Common.{ℕ, String, Bool, true, false, not, List, [], ◌∷◌, map, if◌then◌else◌}
use consent_plugin.Config.{Config}
use consent_plugin.Audit.{Event}
use consent_plugin.Filter.{CheckedOwner, ResponseOutcome}

-- the event of an outcome for which no owner was checked
abbrev pub outcome_event : ℕ → ResponseOutcome → Event
outcome_event now o = record {
  time = now;
  request_id = o.request_id;
  subject = o.subject;
  resource = o.resource;
  method = o.method;
  decision = o.decision;
  reason = o.reason;
}

abbrev pub owner_event : ℕ → ResponseOutcome → CheckedOwner → Event
owner_event now o c = record {
  time = now;
  request_id = o.request_id;
  subject = c.subject;
  resource = c.resource;
  method = o.method;
  decision = c.decision;
  reason = c.reason;
}

unfoldable pub owner_events : ℕ → ResponseOutcome → List CheckedOwner → List Event
owner_events now o [] = []
owner_events now o (c ∷ cs) = owner_event now o c ∷ owner_events now o cs

-- recordAudit: what is emitted at the time `now`
unfoldable pub record_audit : ℕ → Config → ResponseOutcome → List Event
unfolding owner_events
record_audit now cfg o =
    if not cfg.audit_enabled
    then []
    else elim o.checked [ [] ↦ outcome_event now o ∷ [] | c ∷ cs ↦ owner_events now o (c ∷ cs) ]
