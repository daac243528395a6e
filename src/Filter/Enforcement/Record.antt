-- ===== src/Filter/Enforcement/Record.antt =====
-- What the events of one response put on record.
use mathlib.Core.List.{append_assoc, append-nil}
use consent_plugin.Common.{
  ℕ, suc, ◌+◌, ◌%◌, ◌^◌, ◌<◌, ◌≡◌, ◌⊎◌, refl, sym, ap, ◌∙◌, inl, inr, true, List, [], ◌∷◌, ◌++◌,
  arith, length, List-cases,
}
use consent_plugin.Audit.{Event, QueuedEvent, sanitize_reason, sanitized, Emitter, emit, emits}
use consent_plugin.Audit.Log.{LogStep, Log, kept}
use consent_plugin.Audit.Simulation.{emit-LogStep}
use consent_plugin.Config.{Config}
use consent_plugin.Filter.{CheckedOwner, ResponseOutcome}
use consent_plugin.Filter.Audit.{owner_event, owner_events, record_audit}
use consent_plugin.Filter.Enforcement.{emit_all}

-- The event tells what was decided about the owner, for the request of the outcome.
pub record Tells (now : ℕ) (o : ResponseOutcome) (c : CheckedOwner) (ev : QueuedEvent)
    : Type 0 where
  pub time : ev.time ≡ now
  pub request_id : ev.request_id ≡ o.request_id
  pub method : ev.method ≡ o.method
  pub subject : ev.subject ≡ c.subject
  pub resource : ev.resource ≡ c.resource
  pub decision : ev.decision ≡ c.decision
  pub reason : ev.reason ≡ sanitize_reason c.reason

-- The events tell of the owners, one of each and in their order, but for as many as the number says.
pub data IsRecord (now : ℕ) (o : ResponseOutcome)
    : List CheckedOwner → List QueuedEvent → ℕ → Type 0 where
  complete : IsRecord now o [] [] 0
  told :
      {c : CheckedOwner} {cs : List CheckedOwner} {ev : QueuedEvent} {evs : List QueuedEvent}
      {n : ℕ}
      → Tells now o c ev
      → IsRecord now o cs evs n
      → IsRecord now o (c ∷ cs) (ev ∷ evs) n
  lost :
      {c : CheckedOwner} {cs : List CheckedOwner} {evs : List QueuedEvent} {n : ℕ}
      → IsRecord now o cs evs n
      → IsRecord now o (c ∷ cs) evs (suc n)

-- The owners that were checked; or the outcome's own subject, where none was.
abbrev pub subjects : ResponseOutcome → List CheckedOwner → List CheckedOwner
subjects o [] =
    record { subject = o.subject; resource = o.resource; decision = o.decision; reason = o.reason }
    ∷ []
subjects o (c ∷ cs) = c ∷ cs

-- What an emitter holds of it afterwards, beside what it held before.
abbrev pub Recorded : ℕ → ResponseOutcome → List CheckedOwner → Emitter → Emitter → Type 0
Recorded now o cs e e' =
    (evs : List QueuedEvent) × (n : ℕ) × IsRecord now o cs evs n
    × (kept e' ≡ kept e ++ evs)
    × (e'.dropped ≡ e.dropped + n)

sanitized-Tells :
    (now : ℕ) (o : ResponseOutcome) (c : CheckedOwner)
    → Tells now o c (sanitized (owner_event now o c))
sanitized-Tells now o c = record {
  time = refl;
  request_id = refl;
  method = refl;
  subject = refl;
  resource = refl;
  decision = refl;
  reason = refl;
}

-- an event is kept at the end, or lost
LogStep-emits :
    {ev : Event} {l l' : Log}
    → LogStep (emits ev) l l'
    → (l'.accepted ≡ l.accepted ++ sanitized ev ∷ []) × (l'.lost ≡ l.lost)
      ⊎ (l'.accepted ≡ l.accepted) × (l'.lost ≡ (l.lost + 1) % 2 ^ 64)
LogStep-emits (LogStep.keep a w d) = inl (a, d)
LogStep-emits (LogStep.lose full a w d) = inr (a, d)
LogStep-emits (LogStep.write q a w v d) = cc

then_more : {A : Type 0} (xs ys zs : List A) (x : A) → ys ≡ xs ++ x ∷ [] → ys ++ zs ≡ xs ++ x ∷ zs
then_more xs ys zs x e = ap (λ l. l ++ zs) e ∙ append_assoc xs (x ∷ []) zs

pub emit_all-Recorded :
    (now : ℕ) (o : ResponseOutcome) (cs : List CheckedOwner) (e : Emitter)
    → e.dropped + length cs < 2 ^ 64
    → Recorded now o cs e (emit_all (owner_events now o cs) e)
unfolding owner_events emit_all
emit_all-Recorded now o [] e h = ([], 0, complete, sym (append-nil (kept e)), omega arith)
emit_all-Recorded now o (c ∷ cs) e h =
    let ev = owner_event now o c in
    let x = emit ev e in
    elim (LogStep-emits (emit-LogStep ev e)) [
      | inl (k, d) ↦
          let (evs, n, r, k', d') = emit_all-Recorded now o cs x (omega arith) in
          (
            sanitized ev ∷ evs,
            n,
            told (sanitized-Tells now o c) r,
            k' ∙ then_more (kept e) (kept x) evs (sanitized ev) k,
            omega arith,
          )
      | inr (k, d) ↦
          let (evs, n, r, k', d') = emit_all-Recorded now o cs x (omega arith) in
          (evs, suc n, lost r, k' ∙ ap (λ l. l ++ evs) k, omega arith)
    ]

pub record_audit-subjects :
    (now : ℕ) (cfg : Config) (o : ResponseOutcome)
    → cfg.audit_enabled ≡ true
    → record_audit now cfg o ≡ owner_events now o (subjects o o.checked)
unfolding record_audit owner_events
record_audit-subjects now cfg o on = elim (List-cases o.checked) [
  | inl e ↦ rw (on, e) refl
  | inr (c, cs, e) ↦ rw (on, e) refl
]
