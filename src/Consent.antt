-- ===== src/Consent.antt =====
-- internal/consent/models.go: one consent question and its verdict.
pub mod Record
pub mod Cache
pub mod Client
use consent_plugin.Common.{String}

pub data Decision : Type 0 where
  allow deny : Decision

-- the string of a decision
abbrev pub show_decision : Decision → String
show_decision allow = "allow"
show_decision deny = "deny"

-- `subject` is the data owner. An empty `data_resource` or `purpose` does not scope the check.
pub record ConsentRequest : Type 0 where
  pub subject : String
  pub resource : String
  pub method : String
  pub data_resource : String
  pub consumer : String
  pub purpose : String

pub record ConsentResponse : Type 0 where
  pub decision : Decision
  pub reason : String
