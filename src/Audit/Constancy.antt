-- ===== src/Audit/Constancy.antt =====
-- What no move of an emitter changes: its address, its name, its timeout and its headers.
use mathlib.Core.Path.{subst}
use consent_plugin.Common.{
  ℕ, ◌+◌, ◌%◌, ◌^◌, ◌++◌, ap, ◌≡◌, refl, ◌∙◌, inl, inr, Bool, true, false, none, some, List, [],
  ◌∷◌, if◌then◌else◌, List-cases,
}
use consent_plugin.Audit.{
  QueuedEvent, Emitter, Worker, draining, stopped, sanitized, flush, received, drained, finished,
  emit, appended, Move, emits, receives, ticks, closes, notices, drains, finishes, apply, run,
}
use consent_plugin.Audit.Simulation.{
  run_inversion, some_injective, chosen_case, serving_inversion, draining_inversion,
}

-- The settings of an emitter.
pub record Unchanged (e e' : Emitter) : Type 0 where
  pub endpoint : e'.endpoint ≡ e.endpoint
  pub service_name : e'.service_name ≡ e.service_name
  pub timeout : e'.timeout ≡ e.timeout
  pub headers : e'.headers ≡ e.headers

flush-Unchanged : (e : Emitter) → Unchanged e (flush e)
unfolding flush
flush-Unchanged e = elim (List-cases e.batch) [
  | inl h ↦ rw h (record { endpoint = refl; service_name = refl; timeout = refl; headers = refl })
  | inr (ev, rest, h) ↦
      rw h (record { endpoint = refl; service_name = refl; timeout = refl; headers = refl })
]

-- an emitter of which only what the worker and the callers of Emit share is changed
unchanged :
    (e : Emitter) (q : List QueuedEvent) (n : ℕ) (b : Bool) (w : Worker) (l : List QueuedEvent)
    (x : List (List QueuedEvent))
    → Unchanged e
        (record e { queue = q; dropped = n; done = b; worker = w; batch = l; exported = x })
unchanged e q n b w l x = record {
  endpoint = refl;
  service_name = refl;
  timeout = refl;
  headers = refl;
}

Unchanged-trans : {e e' e'' : Emitter} → Unchanged e e' → Unchanged e' e'' → Unchanged e e''
Unchanged-trans p q = record {
  endpoint = q.endpoint ∙ p.endpoint;
  service_name = q.service_name ∙ p.service_name;
  timeout = q.timeout ∙ p.timeout;
  headers = q.headers ∙ p.headers;
}

received-Unchanged :
    (q : List QueuedEvent) (e e' : Emitter) → received q e ≡ some e' → Unchanged e e'
unfolding received
received-Unchanged [] e e' h = cc
received-Unchanged (ev ∷ rest) e e' h =
    let a = unchanged e rest e.dropped e.done e.worker (appended ev rest e).batch e.exported in
    chosen_case (Unchanged e) _ _ _ e' (Unchanged-trans a (flush-Unchanged (appended ev rest e))) a
      h

drained-Unchanged : (q : List QueuedEvent) (e e' : Emitter) → drained q e ≡ some e' → Unchanged e e'
unfolding drained
drained-Unchanged [] e e' h = cc
drained-Unchanged (ev ∷ rest) e e' h =
    subst (Unchanged e) (some_injective h)
      (unchanged e rest e.dropped e.done e.worker (appended ev rest e).batch e.exported)

finished-Unchanged :
    (q : List QueuedEvent) (e e' : Emitter) → finished q e ≡ some e' → Unchanged e e'
unfolding finished
finished-Unchanged [] e e' h =
    let f = flush e in
    subst (Unchanged e) (some_injective h) (
      Unchanged-trans (flush-Unchanged e)
        (unchanged f f.queue f.dropped f.done stopped f.batch f.exported))
finished-Unchanged (ev ∷ rest) e e' h = cc

noticed-Unchanged :
    (b : Bool) (e e' : Emitter)
    → (if b then some (record e { worker = draining }) else none) ≡ some e'
    → Unchanged e e'
noticed-Unchanged true e e' h =
    subst (Unchanged e) (some_injective h)
      (unchanged e e.queue e.dropped e.done draining e.batch e.exported)
noticed-Unchanged false e e' h = cc

apply-Unchanged : (mv : Move) (e e' : Emitter) → apply mv e ≡ some e' → Unchanged e e'
unfolding apply emit
apply-Unchanged (emits ev) e e' h =
    chosen_case (Unchanged e) _ _ _ e'
      (unchanged e (e.queue ++ sanitized ev ∷ []) e.dropped e.done e.worker e.batch e.exported)
      (unchanged e e.queue ((e.dropped + 1) % 2 ^ 64) e.done e.worker e.batch e.exported)
      (ap some (some_injective h))
apply-Unchanged receives e e' h =
    received-Unchanged e.queue e e' ((serving_inversion e.worker _ e' h).0)
apply-Unchanged ticks e e' h =
    subst (Unchanged e) (some_injective ((serving_inversion e.worker _ e' h).0)) (flush-Unchanged e)
apply-Unchanged closes e e' h =
    subst (Unchanged e) (some_injective h)
      (unchanged e e.queue e.dropped true e.worker e.batch e.exported)
apply-Unchanged notices e e' h =
    noticed-Unchanged e.done e e' ((serving_inversion e.worker _ e' h).0)
apply-Unchanged drains e e' h =
    drained-Unchanged e.queue e e' ((draining_inversion e.worker _ e' h).0)
apply-Unchanged finishes e e' h =
    finished-Unchanged e.queue e e' ((draining_inversion e.worker _ e' h).0)

pub run-Unchanged : (mvs : List Move) (e e' : Emitter) → run mvs e ≡ some e' → Unchanged e e'
unfolding run
run-Unchanged [] e e' h =
    subst (Unchanged e) (some_injective h)
      (unchanged e e.queue e.dropped e.done e.worker e.batch e.exported)
run-Unchanged (mv ∷ mvs) e e' h =
    let (x, s, r) = run_inversion mv mvs e e' h in
    Unchanged-trans (apply-Unchanged mv e x s) (run-Unchanged mvs x e' r)
