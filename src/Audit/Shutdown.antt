-- ===== src/Audit/Shutdown.antt =====
-- The bounds of an emitter, and what a worker past its end has left.
use mathlib.Core.Path.{subst}
use consent_plugin.Common.{
  ◌≤◌, ◌≡◌, ◌≢◌, refl, ap, ◌⊎◌, inl, inr, Bool, true, false, none, some, List, [], ◌∷◌, ◌++◌, arith,
  ltb, length, length-append, if◌then◌else◌, Bool-cases, List-cases,
}
use consent_plugin.Audit.{
  default_queue_size, AuditConfig, QueuedEvent, Worker, serving, draining, stopped, Emitter,
  new_emitter, emit, sanitized, Event, flush, appended, received, drained, finished, Move, emits,
  receives, ticks, closes, notices, drains, finishes, apply, run,
}
use consent_plugin.Audit.Log.{concat, kept}
use consent_plugin.Audit.Simulation.{
  run_inversion, some_injective, chosen_case, serving_inversion, draining_inversion,
}

-- The queue holds 2048 events at most, and a worker past its end has no batch left.
pub record IsValid (e : Emitter) : Type 0 where
  pub bounded : length e.queue ≤ default_queue_size
  pub empty_handed : e.worker ≡ stopped → e.batch ≡ []

pub flush-batch : (e : Emitter) → (flush e).batch ≡ []
unfolding flush
flush-batch e = elim (List-cases e.batch) [ inl h ↦ rw h refl | inr (ev, rest, h) ↦ rw h refl ]

pub flush-keeps : (e : Emitter) → ((flush e).queue ≡ e.queue) × ((flush e).worker ≡ e.worker)
unfolding flush
flush-keeps e = elim (List-cases e.batch) [
  | inl h ↦ rw h (refl, refl)
  | inr (ev, rest, h) ↦ rw h (refl, refl)
]

flush-IsValid : (e : Emitter) → IsValid e → IsValid (flush e)
flush-IsValid e v = record {
  bounded = rw ((flush-keeps e).0) v.bounded;
  empty_handed = λ s. flush-batch e;
}

not_stopped : {A : Type 0} {w : Worker} → w ≡ serving → w ≡ stopped → A
not_stopped p q = cc (p, q)

appended-IsValid :
    (ev : QueuedEvent) (rest : List QueuedEvent) (e : Emitter)
    → e.worker ≡ serving ⊎ e.worker ≡ draining
    → length rest ≤ default_queue_size
    → IsValid (appended ev rest e)
appended-IsValid ev rest e (inl w) b = record { bounded = b; empty_handed = λ s. cc (w, s) }
appended-IsValid ev rest e (inr w) b = record { bounded = b; empty_handed = λ s. cc (w, s) }

received-IsValid :
    (q : List QueuedEvent) (e e' : Emitter)
    → e.worker ≡ serving
    → length q ≤ default_queue_size
    → received q e ≡ some e'
    → IsValid e'
unfolding received
received-IsValid [] e e' w b h = cc
received-IsValid (ev ∷ rest) e e' w b h =
    let v = appended-IsValid ev rest e (inl w) (omega arith) in
    chosen_case IsValid _ _ _ e' (flush-IsValid (appended ev rest e) v) v h

drained-IsValid :
    (q : List QueuedEvent) (e e' : Emitter)
    → e.worker ≡ draining
    → length q ≤ default_queue_size
    → drained q e ≡ some e'
    → IsValid e'
unfolding drained
drained-IsValid [] e e' w b h = cc
drained-IsValid (ev ∷ rest) e e' w b h =
    subst IsValid (some_injective h) (appended-IsValid ev rest e (inr w) (omega arith))

finished-IsValid :
    (q : List QueuedEvent) (e e' : Emitter) → IsValid e → finished q e ≡ some e' → IsValid e'
unfolding finished
finished-IsValid [] e e' v h =
    let f = flush-IsValid e v in
    subst IsValid (some_injective h)
      (record { bounded = f.bounded; empty_handed = λ s. flush-batch e })
finished-IsValid (ev ∷ rest) e e' v h = cc

noticed-IsValid :
    (b : Bool) (e e' : Emitter)
    → IsValid e
    → (if b then some (record e { worker = draining }) else none) ≡ some e'
    → IsValid e'
noticed-IsValid true e e' v h =
    subst IsValid (some_injective h) (record { bounded = v.bounded; empty_handed = λ s. cc })
noticed-IsValid false e e' v h = cc

emit-IsValid : (ev : Event) (e : Emitter) → IsValid e → IsValid (emit ev e)
unfolding emit
emit-IsValid ev e v = elim (Bool-cases (ltb (length e.queue) default_queue_size)) [
  | inl room ↦ rw room (record {
    bounded = ground (arith, length-append e.queue (sanitized ev ∷ []));
    empty_handed = v.empty_handed;
  })
  | inr full ↦ rw full (record { bounded = v.bounded; empty_handed = v.empty_handed })
]

apply-IsValid : (mv : Move) (e e' : Emitter) → IsValid e → apply mv e ≡ some e' → IsValid e'
unfolding apply
apply-IsValid (emits ev) e e' v h = subst IsValid (some_injective h) (emit-IsValid ev e v)
apply-IsValid receives e e' v h =
    let (r, w) = serving_inversion e.worker _ e' h in received-IsValid e.queue e e' w v.bounded r
apply-IsValid ticks e e' v h =
    subst IsValid (some_injective ((serving_inversion e.worker _ e' h).0)) (flush-IsValid e v)
apply-IsValid closes e e' v h =
    subst IsValid (some_injective h) (record { bounded = v.bounded; empty_handed = v.empty_handed })
apply-IsValid notices e e' v h =
    noticed-IsValid e.done e e' v ((serving_inversion e.worker _ e' h).0)
apply-IsValid drains e e' v h =
    let (r, w) = draining_inversion e.worker _ e' h in drained-IsValid e.queue e e' w v.bounded r
apply-IsValid finishes e e' v h =
    finished-IsValid e.queue e e' v ((draining_inversion e.worker _ e' h).0)

run-IsValid : (mvs : List Move) (e e' : Emitter) → IsValid e → run mvs e ≡ some e' → IsValid e'
unfolding run
run-IsValid [] e e' v h = subst IsValid (some_injective h) v
run-IsValid (mv ∷ mvs) e e' v h =
    let (x, s, r) = run_inversion mv mvs e e' h in run-IsValid mvs x e' (apply-IsValid mv e x v s) r

Worker-cases : (w : Worker) → (w ≢ stopped) ⊎ (w ≡ stopped)
Worker-cases serving = inl (λ e. cc)
Worker-cases draining = inl (λ e. cc)
Worker-cases stopped = inr refl

-- In every interleaving the queue holds at most 2048 events, and the worker is not past its end yet,
-- or everything that was accepted is exported, but for what came into the queue after that end.
pub run-settles :
    (cfg : AuditConfig) (mvs : List Move) (e : Emitter)
    → run mvs (new_emitter cfg) ≡ some e
    → (length e.queue ≤ default_queue_size)
      × (e.worker ≢ stopped ⊎ kept e ≡ concat e.exported ++ e.queue)
unfolding new_emitter
run-settles cfg mvs e h =
    let v =
      run-IsValid mvs (new_emitter cfg) e (record { bounded = omega arith; empty_handed = λ s. cc })
        h in
    (
      v.bounded,
      elim (Worker-cases e.worker) [
        | inl busy ↦ inl busy
        | inr s ↦ inr (ap (λ l. concat e.exported ++ (l ++ e.queue)) (v.empty_handed s))
      ],
    )
