-- ===== src/Filter/Enforcement/Effects.antt =====
-- What one response changes.
use mathlib.Core.Path.{subst}
use consent_plugin.Common.Text.{itoa, byte_length}
use text.Mathlib.TextPositions.{eq_refl}
use consent_plugin.Common.{
  sym, ℕ, ◌+◌, ◌^◌, ◌<◌, ◌≡◌, refl, ap, ◌∙◌, ◌⊎◌, inl, inr, String, Bool, true, false, none, some,
  if◌then◌else◌, length, Bool-cases,
}
use consent_plugin.Common.Arrangement.{TextSorter}
use consent_plugin.Common.Int.{ℤ}
use consent_plugin.Common.Map.{Map, get, put, get-put}
use consent_plugin.Audit.{Emitter}
use consent_plugin.Audit.Registry.{key, get_emitter}
use consent_plugin.Audit.Sharing.{got_known}
use consent_plugin.Config.{Config}
use consent_plugin.Consent.{Decision, allow, deny, show_decision}
use consent_plugin.Filter.{ResponseOutcome}
use consent_plugin.Filter.Audit.{record_audit}
use consent_plugin.Filter.Denial.{Header, Written, cleaned, deny_response}
use consent_plugin.Filter.Enforcement.Record.{
  subjects, Recorded, emit_all-Recorded, record_audit-subjects,
}
use consent_plugin.Filter.Enforcement.{
  audit_config, emit_all, audit_outcome, denial_of, response_filter,
}
use consent_plugin.Metrics.{LabelPair, is_pair, Metrics, count_at, fail_mode_label, record_decision}
use consent_plugin.Metrics.Counts.{count_at-increment}

if_true : {A : Type 0} (b : Bool) (x y : A) → b ≡ true → (if b then x else y) ≡ x
if_true b x y e = rw e refl

-- The denial that the route configures: its status, its body, and their type and length in the
-- headers.
pub record IsDenialOf {H : Type 0} (hd : Header H) (cfg : Config) (d : Written hd) : Type 0 where
  pub others : H
  pub header :
      d.header
      ≡ hd.set
          (hd.set others "Content-Type" cfg.deny_response_content_type)
          "Content-Length"
          (itoa (byte_length cfg.deny_response_body))
  pub status : d.status ≡ cfg.deny_status_code
  pub body : d.body ≡ cfg.deny_response_body

deny_response-IsDenialOf :
    {H : Type 0} (hd : Header H) (cfg : Config) (h : H) → IsDenialOf hd cfg (deny_response hd cfg h)
unfolding deny_response
deny_response-IsDenialOf hd cfg h = record {
  others = cleaned hd h;
  header = refl;
  status = refl;
  body = refl;
}

written_cases :
    {H : Type 0} (hd : Header H) (cfg : Config) (d : Decision) (h : H)
    → (d ≡ allow) × (denial_of hd cfg d h ≡ none)
      ⊎ (d ≡ deny) × ((x : Written hd) × (denial_of hd cfg d h ≡ some x) × IsDenialOf hd cfg x)
unfolding denial_of
written_cases hd cfg allow h = inl (refl, refl)
written_cases hd cfg deny h =
    inr (refl, (deny_response hd cfg h, refl, deny_response-IsDenialOf hd cfg h))

module _ (t : TextSorter) (show_duration : ℤ → String) where
  abbrev pub emitter_of : Config → Map Emitter → Emitter
  emitter_of cfg emitters = (get_emitter t show_duration (audit_config cfg) emitters).0

  get_emitter-put :
      (cfg : Config) (e : Emitter) (m : Map Emitter)
      → emitter_of cfg (put (key t show_duration (audit_config cfg)) e m) ≡ e
  get_emitter-put cfg e m =
      let k = key t show_duration (audit_config cfg) in
      let found : get k (put k e m) ≡ some e = rw (get-put k k e m, eq_refl k) refl in
      ap (λ r. r.0) (got_known t show_duration (audit_config cfg) (put k e m) e found)

  audit_outcome-off :
      (now : ℕ) (cfg : Config) (o : ResponseOutcome) (emitters : Map Emitter)
      → cfg.audit_enabled ≡ false
      → audit_outcome t show_duration now cfg o emitters ≡ emitters
  unfolding audit_outcome
  audit_outcome-off now cfg o emitters off = rw (off, audit_outcome) refl

  audit_outcome-on :
      (now : ℕ) (cfg : Config) (o : ResponseOutcome) (emitters : Map Emitter)
      → cfg.audit_enabled ≡ true
      → emitter_of cfg (audit_outcome t show_duration now cfg o emitters)
        ≡ emit_all (record_audit now cfg o) (emitter_of cfg emitters)
  unfolding audit_outcome
  audit_outcome-on now cfg o emitters on =
      ap (emitter_of cfg) (if_true cfg.audit_enabled _ emitters on)
      ∙ get_emitter-put cfg (emit_all (record_audit now cfg o) (emitter_of cfg emitters))
          ((get_emitter t show_duration (audit_config cfg) emitters).1)

  recorded :
      (now : ℕ) (cfg : Config) (o : ResponseOutcome) (emitters : Map Emitter)
      → cfg.audit_enabled ≡ true
      → (emitter_of cfg emitters).dropped + length (subjects o o.checked) < 2 ^ 64
      → Recorded now o
          (subjects o o.checked)
          (emitter_of cfg emitters)
          (emitter_of cfg (audit_outcome t show_duration now cfg o emitters))
  recorded now cfg o emitters on b =
      let before = emitter_of cfg emitters in
      let same =
        audit_outcome-on now cfg o emitters on
        ∙ ap (λ evs. emit_all evs before) (record_audit-subjects now cfg o on) in
      subst (Recorded now o (subjects o o.checked) before) (sym same)
        (emit_all-Recorded now o (subjects o o.checked) before b)

  -- Each response is decided once, counted once and recorded. The response is replaced, by the status
  -- and the body that the route configures for a denial, with their type and length, exactly if the
  -- outcome is a deny; the counter of the decision and of the way in which it came about goes up by
  -- one, and no other; and a route that audits has put at the end of its emitter's log one event for
  -- each owner that was checked, in their order, or one for the outcome where none was, with the
  -- subject, the resource, the decision and the sanitized reason, but for those that it counts as
  -- dropped, while a route that does not leaves every emitter as it is. The counts stay below 2^64.
  pub response_filter-enforces :
      {H : Type 0} (hd : Header H) {F S : Type 0} (now : ℕ) (cfg : Config) (o : ResponseOutcome)
      (h : H) (metrics : Metrics F S) (emitters : Map Emitter) (k : LabelPair)
      → count_at k metrics.decisions + 1 < 2 ^ 64
      → (emitter_of cfg emitters).dropped + length (subjects o o.checked) < 2 ^ 64
      → let left = response_filter t show_duration hd now cfg o h metrics emitters in
        ((o.decision ≡ allow) × (left.written ≡ none)
          ⊎ (o.decision ≡ deny)
            × ((x : Written hd) × (left.written ≡ some x) × IsDenialOf hd cfg x))
        × (count_at k left.metrics.decisions
            ≡ count_at k metrics.decisions
              + (if is_pair (show_decision o.decision, fail_mode_label o.fail_mode) k
                  then 1
                  else 0))
        × ((cfg.audit_enabled ≡ true)
              × Recorded now o
                  (subjects o o.checked)
                  (emitter_of cfg emitters)
                  (emitter_of cfg left.emitters)
            ⊎ (cfg.audit_enabled ≡ false) × (left.emitters ≡ emitters))
  unfolding response_filter record_decision
  response_filter-enforces hd now cfg o h metrics emitters k b b' = (
    written_cases hd cfg o.decision h,
    count_at-increment (show_decision o.decision, fail_mode_label o.fail_mode) k metrics.decisions
        b,
    elim (Bool-cases cfg.audit_enabled) [
      | inl on ↦ inl (on, recorded now cfg o emitters on b')
      | inr off ↦ inr (off, audit_outcome-off now cfg o emitters off)
    ],
  )
