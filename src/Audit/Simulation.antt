-- ===== src/Audit/Simulation.antt =====
-- Each move of an emitter is a step of the log.
use mathlib.Core.Path.{subst}
use mathlib.Core.List.{append_assoc, append-nil}
use consent_plugin.Common.{
  ◌+◌, ◌≤◌, ◌≡◌, refl, sym, ap, ◌∙◌, inl, inr, Bool, true, false, Option, none, some, List, [], ◌∷◌,
  ◌++◌, arith, ltb, length, length-append, if◌then◌else◌, Bool-cases, List-cases, Option-cases,
}
use consent_plugin.Audit.{
  default_queue_size, Event, QueuedEvent, Worker, serving, draining, stopped, Emitter, sanitized,
  emit, flush, appended, received, drained, finished, Move, emits, receives, ticks, closes, notices,
  drains, finishes, apply, run, if_serving, if_draining,
}
use consent_plugin.Audit.Log.{concat, is_emit, LogStep, LogRun, here, next, kept, log_of}

concat-append :
    {A : Type 0} (xss : List (List A)) (ys : List A) → concat (xss ++ ys ∷ []) ≡ concat xss ++ ys
concat-append [] ys = append-nil ys
concat-append (xs ∷ xss) ys = rw (concat-append xss ys) (sym (append_assoc xs (concat xss) ys))

written-le : (e : Emitter) → length (concat e.exported) ≤ length (kept e)
written-le e = omega (arith, length-append (concat e.exported) (e.batch ++ e.queue))

-- what a move of the worker does to the log
pub record Moved (e e' : Emitter) : Type 0 where
  pub same_kept : kept e' ≡ kept e
  pub same_dropped : e'.dropped ≡ e.dropped
  pub more : length (concat e.exported) ≤ length (concat e'.exported)

pub Moved-trans : {e e' e'' : Emitter} → Moved e e' → Moved e' e'' → Moved e e''
Moved-trans p q = record {
  same_kept = q.same_kept ∙ p.same_kept;
  same_dropped = q.same_dropped ∙ p.same_dropped;
  more = omega arith;
}

pub some_injective : {A : Type 0} {x y : A} → some x ≡ some y → x ≡ y
some_injective h = cc

shifted :
    {A : Type 0} (xss : List (List A)) (ys zs : List A)
    → concat (xss ++ ys ∷ []) ++ zs ≡ concat xss ++ (ys ++ zs)
shifted xss ys zs = rw (concat-append xss ys) (append_assoc (concat xss) ys zs)

pub flush-Moved : (e : Emitter) → Moved e (flush e)
unfolding flush
flush-Moved e = elim (List-cases e.batch) [
  | inl h ↦ rw h (record { same_kept = refl; same_dropped = refl; more = omega arith })
  | inr (ev, rest, h) ↦ rw h (record {
    same_kept = shifted e.exported (ev ∷ rest) e.queue;
    same_dropped = refl;
    more = omega (
      arith,
      ap length (concat-append e.exported (ev ∷ rest)),
      length-append (concat e.exported) (ev ∷ rest),
    );
  })
]

-- The worker takes the head of the queue.
pub taken-kept :
    (e : Emitter) (ev : QueuedEvent) (rest : List QueuedEvent)
    → e.queue ≡ ev ∷ rest
    → Moved e (record e { queue = rest; batch = e.batch ++ ev ∷ [] })
taken-kept e ev rest h = record {
  same_kept = rw h (ap (λ l. concat e.exported ++ l) (append_assoc e.batch (ev ∷ []) rest));
  same_dropped = refl;
  more = omega arith;
}

same-Moved : {e x e' : Emitter} → Moved e x → x ≡ e' → Moved e e'
same-Moved {e} m h = subst (Moved e) h m

pub chosen_case :
    (P : Emitter → Type 0) (b : Bool) (x y e' : Emitter)
    → P x
    → P y
    → some (if b then x else y) ≡ some e'
    → P e'
chosen_case P true x y e' p q h = subst P (some_injective h) p
chosen_case P false x y e' p q h = subst P (some_injective h) q

received-Moved :
    (q : List QueuedEvent) (e e' : Emitter) → e.queue ≡ q → received q e ≡ some e' → Moved e e'
unfolding received
received-Moved [] e e' q h = cc
received-Moved (ev ∷ rest) e e' q h =
    let t = taken-kept e ev rest q in
    chosen_case (Moved e) _ _ _ e' (Moved-trans t (flush-Moved (appended ev rest e))) t h

drained-Moved :
    (q : List QueuedEvent) (e e' : Emitter) → e.queue ≡ q → drained q e ≡ some e' → Moved e e'
unfolding drained
drained-Moved [] e e' q h = cc
drained-Moved (ev ∷ rest) e e' q h = same-Moved (taken-kept e ev rest q) (cc)

finished-Moved : (q : List QueuedEvent) (e e' : Emitter) → finished q e ≡ some e' → Moved e e'
unfolding finished
finished-Moved [] e e' h =
    let m = flush-Moved e in
    same-Moved {x = record (flush e) { worker = stopped }}
      (record { same_kept = m.same_kept; same_dropped = m.same_dropped; more = m.more }) (cc)
finished-Moved (ev ∷ rest) e e' h = cc

pub Moved-refl : (e : Emitter) → Moved e e
Moved-refl e = record { same_kept = refl; same_dropped = refl; more = omega arith }

pub serving_inversion :
    (w : Worker) (r : Option Emitter) (e' : Emitter)
    → if_serving w r ≡ some e'
    → (r ≡ some e') × (w ≡ serving)
serving_inversion serving r e' h = (h, refl)
serving_inversion draining r e' h = cc
serving_inversion stopped r e' h = cc

pub draining_inversion :
    (w : Worker) (r : Option Emitter) (e' : Emitter)
    → if_draining w r ≡ some e'
    → (r ≡ some e') × (w ≡ draining)
draining_inversion serving r e' h = cc
draining_inversion draining r e' h = (h, refl)
draining_inversion stopped r e' h = cc

noticed-Moved :
    (b : Bool) (e e' : Emitter)
    → (if b then some (record e { worker = draining }) else none) ≡ some e'
    → Moved e e'
noticed-Moved true e e' h =
    same-Moved {x = record e { worker = draining }}
      (record { same_kept = refl; same_dropped = refl; more = omega arith }) (cc)
noticed-Moved false e e' h = cc

-- the worker's moves, and Shutdown's
pub apply-Moved :
    (mv : Move) (e e' : Emitter) → is_emit mv ≡ false → apply mv e ≡ some e' → Moved e e'
unfolding apply
apply-Moved (emits ev) e e' w h = cc
apply-Moved receives e e' w h =
    received-Moved e.queue e e' refl ((serving_inversion e.worker _ e' h).0)
apply-Moved ticks e e' w h =
    same-Moved (flush-Moved e) (some_injective ((serving_inversion e.worker _ e' h).0))
apply-Moved closes e e' w h =
    same-Moved {x = record e { done = true }}
      (record { same_kept = refl; same_dropped = refl; more = omega arith }) (cc)
apply-Moved notices e e' w h = noticed-Moved e.done e e' ((serving_inversion e.worker _ e' h).0)
apply-Moved drains e e' w h =
    drained-Moved e.queue e e' refl ((draining_inversion e.worker _ e' h).0)
apply-Moved finishes e e' w h = finished-Moved e.queue e e' ((draining_inversion e.worker _ e' h).0)

last_kept :
    {A : Type 0} (xs ys zs : List A) (z : A)
    → xs ++ (ys ++ (zs ++ z ∷ [])) ≡ (xs ++ (ys ++ zs)) ++ z ∷ []
last_kept xs ys zs z =
    ap (λ l. xs ++ l) (sym (append_assoc ys zs (z ∷ [])))
    ∙ sym (append_assoc xs (ys ++ zs) (z ∷ []))

full-le :
    (e : Emitter)
    → ltb (length e.queue) default_queue_size ≡ false
    → length (concat e.exported) + default_queue_size ≤ length (kept e)
full-le e h =
    ground
      (arith, length-append (concat e.exported) (e.batch ++ e.queue), length-append e.batch e.queue)

pub emit-LogStep : (ev : Event) (e : Emitter) → LogStep (emits ev) (log_of e) (log_of (emit ev e))
unfolding emit
emit-LogStep ev e = elim (Bool-cases (ltb (length e.queue) default_queue_size)) [
  | inl room ↦
      rw room
        (LogStep.keep (last_kept (concat e.exported) e.batch e.queue (sanitized ev)) refl refl)
  | inr full ↦ rw full (LogStep.lose (full-le e full) refl refl refl)
]

Moved-LogStep :
    (mv : Move) (e e' : Emitter)
    → is_emit mv ≡ false
    → Moved e e'
    → LogStep mv (log_of e) (log_of e')
Moved-LogStep mv e e' w m = LogStep.write w m.same_kept m.more (written-le e') m.same_dropped

apply-LogStep :
    (mv : Move) (e e' : Emitter) → apply mv e ≡ some e' → LogStep mv (log_of e) (log_of e')
unfolding apply
apply-LogStep (emits ev) e e' h =
    subst (λ (x : Emitter). LogStep (emits ev) (log_of e) (log_of x)) (some_injective h)
      (emit-LogStep ev e)
apply-LogStep receives e e' h = Moved-LogStep receives e e' refl (apply-Moved receives e e' refl h)
apply-LogStep ticks e e' h = Moved-LogStep ticks e e' refl (apply-Moved ticks e e' refl h)
apply-LogStep closes e e' h = Moved-LogStep closes e e' refl (apply-Moved closes e e' refl h)
apply-LogStep notices e e' h = Moved-LogStep notices e e' refl (apply-Moved notices e e' refl h)
apply-LogStep drains e e' h = Moved-LogStep drains e e' refl (apply-Moved drains e e' refl h)
apply-LogStep finishes e e' h = Moved-LogStep finishes e e' refl (apply-Moved finishes e e' refl h)

pub run_inversion :
    (mv : Move) (mvs : List Move) (e e' : Emitter)
    → run (mv ∷ mvs) e ≡ some e'
    → (x : Emitter) × (apply mv e ≡ some x) × (run mvs x ≡ some e')
unfolding run
run_inversion mv mvs e e' h = elim (Option-cases (apply mv e)) [
  | inl n ↦ absurd (ground arith)
  | inr (x, s) ↦ (x, s, ground arith)
]

pub run_from-refines :
    (mvs : List Move) (e e' : Emitter) → run mvs e ≡ some e' → LogRun mvs (log_of e) (log_of e')
unfolding run
run_from-refines [] e e' h =
    subst (λ (x : Emitter). LogRun [] (log_of e) (log_of x)) (some_injective h) here
run_from-refines (mv ∷ mvs) e e' h =
    let (x, s, r) = run_inversion mv mvs e e' h in
    next (apply-LogStep mv e x s) (run_from-refines mvs x e' r)
