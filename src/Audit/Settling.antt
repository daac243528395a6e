-- ===== src/Audit/Settling.antt =====
-- Shutdown of an emitter: from the closing of `done` to the end of its worker.
use mathlib.Core.Path.{subst}
use mathlib.Core.List.{append-nil}
use consent_plugin.Common.{
  ◌+◌, ◌≤◌, ◌≡◌, refl, sym, ap, ◌∙◌, Bool, true, false, none, some, List, [], ◌∷◌, ◌++◌, arith,
  length, if◌then◌else◌, All,
}
use consent_plugin.Audit.{
  QueuedEvent, Worker, serving, draining, stopped, Emitter, flush, appended, received, drained,
  finished, Move, emits, receives, ticks, closes, notices, drains, finishes, apply, run,
}
use consent_plugin.Audit.Log.{concat, kept, is_emit}
use consent_plugin.Audit.Simulation.{
  run_inversion, flush-Moved, taken-kept, some_injective, chosen_case, serving_inversion,
  draining_inversion, Moved, Moved-refl, Moved-trans, apply-Moved,
}
use consent_plugin.Audit.Shutdown.{flush-batch, flush-keeps}

-- the inner loop on a queue, and its end
abbrev drain_moves : List QueuedEvent → List Move
drain_moves [] = finishes ∷ []
drain_moves (ev ∷ q) = drains ∷ drain_moves q

run_step :
    (mv : Move) (mvs : List Move) (e x : Emitter)
    → apply mv e ≡ some x
    → run (mv ∷ mvs) e ≡ run mvs x
unfolding run
run_step mv mvs e x h = rw (h, run) refl

apply_drains :
    (ev : QueuedEvent) (q : List QueuedEvent) (e : Emitter)
    → e.queue ≡ ev ∷ q
    → e.worker ≡ draining
    → apply drains e ≡ some (appended ev q e)
unfolding apply drained
apply_drains ev q e h w = ground arith

apply_finishes :
    (e : Emitter)
    → e.queue ≡ []
    → e.worker ≡ draining
    → apply finishes e ≡ some (record (flush e) { worker = stopped })
unfolding apply finished
apply_finishes e h w = ground arith

apply_notices :
    (e : Emitter)
    → e.worker ≡ serving
    → e.done ≡ true
    → apply notices e ≡ some (record e { worker = draining })
unfolding apply
apply_notices e w d = ground arith

-- an emitter past its end, with everything exported that the other one had accepted
abbrev pub Settled : Emitter → Emitter → Type 0
Settled e e' = (e'.worker ≡ stopped) × (concat e'.exported ≡ kept e) × (e'.dropped ≡ e.dropped)

finish-Settled : (e : Emitter) → e.queue ≡ [] → Settled e (record (flush e) { worker = stopped })
finish-Settled e h =
    let m = flush-Moved e in
    let nothing_left : (flush e).batch ++ (flush e).queue ≡ [] =
      ap (λ l. l ++ (flush e).queue) (flush-batch e) ∙ (flush-keeps e).0 ∙ h in
    let exported_all : kept (flush e) ≡ concat (flush e).exported =
      ap (λ l. concat (flush e).exported ++ l) nothing_left ∙ append-nil _ in
    (refl, sym exported_all ∙ m.same_kept, m.same_dropped)

draining-ends :
    (q : List QueuedEvent) (e : Emitter)
    → e.queue ≡ q
    → e.worker ≡ draining
    → (e' : Emitter) × (run (drain_moves q) e ≡ some e') × Settled e e'
unfolding run
draining-ends [] e h w =
    let last = record (flush e) { worker = stopped } in
    (last, run_step finishes [] e last (apply_finishes e h w), finish-Settled e h)
draining-ends (ev ∷ q) e h w =
    let (e', r, s) = draining-ends q (appended ev q e) refl w in
    (
      e',
      run_step drains (drain_moves q) e (appended ev q e) (apply_drains ev q e h w) ∙ r,
      (s.0, s.1 ∙ (taken-kept e ev q h).same_kept, s.2),
    )

-- no call of Emit among the moves
abbrev pub Quiet : List Move → Type 0
Quiet mvs = All (λ mv. is_emit mv ≡ false) mvs

-- A worker past its end has left nothing behind.
abbrev IsEmptied : Emitter → Type 0
IsEmptied e = e.worker ≡ stopped → (e.batch ≡ []) × (e.queue ≡ [])

serving_on : (e : Emitter) → e.worker ≡ serving → IsEmptied e
serving_on e w s = cc (w, s)

received-IsEmptied :
    (q : List QueuedEvent) (e e' : Emitter)
    → e.worker ≡ serving
    → received q e ≡ some e'
    → IsEmptied e'
unfolding received
received-IsEmptied [] e e' w h = cc
received-IsEmptied (ev ∷ rest) e e' w h =
    let x = appended ev rest e in
    chosen_case IsEmptied _ (flush x) x e' (serving_on (flush x) ((flush-keeps x).1 ∙ w))
      (serving_on x w) h

draining_on : (e : Emitter) → e.worker ≡ draining → IsEmptied e
draining_on e w s = cc (w, s)

drained-IsEmptied :
    (q : List QueuedEvent) (e e' : Emitter)
    → e.worker ≡ draining
    → drained q e ≡ some e'
    → IsEmptied e'
unfolding drained
drained-IsEmptied [] e e' w h = cc
drained-IsEmptied (ev ∷ rest) e e' w h =
    subst IsEmptied (some_injective h) (draining_on (appended ev rest e) w)

finished-IsEmptied :
    (q : List QueuedEvent) (e e' : Emitter) → e.queue ≡ q → finished q e ≡ some e' → IsEmptied e'
unfolding finished
finished-IsEmptied [] e e' q h =
    subst IsEmptied (some_injective h) (λ s. (flush-batch e, (flush-keeps e).0 ∙ q))
finished-IsEmptied (ev ∷ rest) e e' q h = cc

noticed-IsEmptied :
    (b : Bool) (e e' : Emitter)
    → (if b then some (record e { worker = draining }) else none) ≡ some e'
    → IsEmptied e'
noticed-IsEmptied true e e' h =
    subst IsEmptied (some_injective h) (draining_on (record e { worker = draining }) refl)
noticed-IsEmptied false e e' h = cc

apply-IsEmptied :
    (mv : Move) (e e' : Emitter)
    → is_emit mv ≡ false
    → IsEmptied e
    → apply mv e ≡ some e'
    → IsEmptied e'
unfolding apply
apply-IsEmptied (emits ev) e e' q v h = cc
apply-IsEmptied receives e e' q v h =
    let (r, w) = serving_inversion e.worker _ e' h in received-IsEmptied e.queue e e' w r
apply-IsEmptied ticks e e' q v h =
    let (r, w) = serving_inversion e.worker _ e' h in
    subst IsEmptied (some_injective r) (serving_on (flush e) ((flush-keeps e).1 ∙ w))
apply-IsEmptied closes e e' q v h = subst IsEmptied (some_injective h) v
apply-IsEmptied notices e e' q v h =
    noticed-IsEmptied e.done e e' ((serving_inversion e.worker _ e' h).0)
apply-IsEmptied drains e e' q v h =
    let (r, w) = draining_inversion e.worker _ e' h in drained-IsEmptied e.queue e e' w r
apply-IsEmptied finishes e e' q v h =
    finished-IsEmptied e.queue e e' refl ((draining_inversion e.worker _ e' h).0)

run-Quiet :
    (mvs : List Move) (e e' : Emitter)
    → Quiet mvs
    → IsEmptied e
    → run mvs e ≡ some e'
    → Moved e e' × IsEmptied e'
unfolding run
run-Quiet [] e e' q v h =
    (subst (Moved e) (some_injective h) (Moved-refl e), subst IsEmptied (some_injective h) v)
run-Quiet (mv ∷ mvs) e e' (q, qs) v h =
    let (x, s, r) = run_inversion mv mvs e e' h in
    let (m, v') = run-Quiet mvs x e' qs (apply-IsEmptied mv e x q v s) r in
    (Moved-trans (apply-Moved mv e x q s) m, v')

emptied-Settled : (e : Emitter) → IsEmptied e → e.worker ≡ stopped → Settled e e
emptied-Settled e v s =
    let (b, q) = v s in
    (
      s,
      sym (
          ap (λ l. concat e.exported ++ (l ++ e.queue)) b
          ∙ ap (λ l. concat e.exported ++ l) q
          ∙ append-nil _),
      refl,
    )

Moved-Settled : {e x : Emitter} (y : Emitter) → Moved e x → Settled x y → Settled e y
Moved-Settled y m (s, all, d) = (s, all ∙ m.same_kept, d ∙ m.same_dropped)

drain_moves-Quiet : (q : List QueuedEvent) → Quiet (drain_moves q)
drain_moves-Quiet [] = (refl, tt)
drain_moves-Quiet (ev ∷ q) = (refl, drain_moves-Quiet q)

length-drain_moves : (q : List QueuedEvent) → length (drain_moves q) ≡ length q + 1
length-drain_moves [] = refl
length-drain_moves (ev ∷ q) = omega (arith, length-drain_moves q)

-- Moves to the end of the worker, none of them a call of Emit.
abbrev pub Ends : Emitter → Emitter → Type 0
Ends e x =
    (mvs : List Move) × (y : Emitter) × Quiet mvs
    × (length mvs ≤ length x.queue + 3)
    × (run mvs x ≡ some y)
    × Settled e y

serving-Ends : (x : Emitter) → x.worker ≡ serving → Ends x x
unfolding apply
serving-Ends x w =
    let closed : Emitter = record x { done = true } in
    let noticed : Emitter = record x { done = true; worker = draining } in
    let (y, r, s) = draining-ends x.queue noticed refl refl in
    (
      closes ∷ notices ∷ drain_moves x.queue,
      y,
      (refl, (refl, drain_moves-Quiet x.queue)),
      omega (arith, length-drain_moves x.queue),
      run_step closes _ x closed refl
          ∙ run_step notices _ closed noticed (apply_notices closed w refl)
          ∙ r,
      s,
    )

can_end : (w : Worker) (x : Emitter) → x.worker ≡ w → IsEmptied x → Ends x x
unfolding run
can_end serving x w v = serving-Ends x w
can_end draining x w v =
    let (y, r, s) = draining-ends x.queue x refl w in
    (
      drain_moves x.queue,
      y,
      drain_moves-Quiet x.queue,
      omega (arith, length-drain_moves x.queue),
      r,
      s,
    )
can_end stopped x w v = ([], x, tt, omega arith, refl, emptied-Settled x v w)

-- Shutdown loses nothing, in whatever order the worker and Shutdown move: from a state in which the
-- worker is in its loop, after any moves among which there is no call of Emit, a worker that is past
-- its end has exported everything that had been accepted, in order, with nothing dropped since; and a
-- worker can always come to such an end, by at most three moves more than the queue has events.
pub shutdown_settles :
    (mvs : List Move) (e x : Emitter)
    → e.worker ≡ serving
    → Quiet mvs
    → run mvs e ≡ some x
    → (x.worker ≡ stopped → Settled e x) × Ends e x
shutdown_settles mvs e x w q h =
    let (m, v) = run-Quiet mvs e x q (serving_on e w) h in
    let (rest, y, quiet, few, r, s) = can_end x.worker x refl v in
    (
      λ past. Moved-Settled x m (emptied-Settled x v past),
      (rest, y, quiet, few, r, Moved-Settled y m s),
    )
