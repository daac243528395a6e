-- ===== src/Audit/Refinement.antt =====
-- The runs of an emitter are runs of the log.
use consent_plugin.Common.{
  ◌+◌, ◌^◌, ◌<◌, ◌≡◌, refl, ap, some, List, [], ◌∷◌, ◌++◌, arith, length, length-append, take,
}
use consent_plugin.Audit.{AuditConfig, Emitter, new_emitter, Move, run}
use consent_plugin.Audit.Log.{concat, LogRun, log_of, empty_log, emits_in, LogRun-counts}
use consent_plugin.Audit.Simulation.{run_from-refines}

take_front : {A : Type 0} (xs ys : List A) → xs ≡ take (length xs) (xs ++ ys)
take_front [] ys = refl
take_front (x ∷ xs) ys = ap (λ l. x ∷ l) (take_front xs ys)

-- An emitter refines the log: for every interleaving of the calls of Emit with the moves of its
-- worker and of Shutdown, its state is a state of the log after the same moves. An emitted event,
-- with its reason sanitized, joins the end of the log, or it is lost while 2048 events at least are
-- not written yet; nothing else changes the log, of which ever more is written. What was exported is
-- the written part, in the order in which the events were accepted and each of them once.
pub run-refines :
    (cfg : AuditConfig) (mvs : List Move) (e : Emitter)
    → run mvs (new_emitter cfg) ≡ some e
    → LogRun mvs empty_log (log_of e)
      × (concat e.exported ≡ take (log_of e).written (log_of e).accepted)
unfolding new_emitter
run-refines cfg mvs e h = (
  run_from-refines mvs (new_emitter cfg) e h,
  take_front (concat e.exported) (e.batch ++ e.queue),
)

-- Every event is accounted for: if fewer than 2^64 - 1 are emitted, those exported, in the batch, in the queue and
-- counted as dropped add up to those emitted, in every interleaving.
pub emits_in-accounts :
    (cfg : AuditConfig) (mvs : List Move) (e : Emitter)
    → run mvs (new_emitter cfg) ≡ some e
    → emits_in mvs + 1 < 2 ^ 64
    → length (concat e.exported) + length e.batch + length e.queue + e.dropped ≡ emits_in mvs
emits_in-accounts cfg mvs e h b =
    let (refined, _) = run-refines cfg mvs e h in
    let counts = LogRun-counts refined (omega arith) in
    omega
      (arith, length-append (concat e.exported) (e.batch ++ e.queue), length-append e.batch e.queue)
