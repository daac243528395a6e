-- ===== src/Audit/Log.antt =====
-- What an emitter promises: an append-only log, of which ever more is written.
use consent_plugin.Common.{
  ℕ, ◌+◌, ◌%◌, ◌^◌, ◌≤◌, ◌<◌, ◌≡◌, ap, Bool, true, false, List, [], ◌∷◌, ◌++◌, arith, length,
  length-append, if◌then◌else◌,
}
use consent_plugin.Audit.{
  default_queue_size, Event, QueuedEvent, Emitter, sanitized, Move, emits, receives, ticks, closes,
  notices, drains, finishes,
}

abbrev pub concat : {A : Type 0} → List (List A) → List A
concat [] = []
concat (xs ∷ xss) = xs ++ concat xss

-- The abstract view: the events that were accepted, how many of them were given to `export`, and how
-- many others were lost.
pub record Log : Type 0 where
  pub accepted : List QueuedEvent
  pub written : ℕ
  pub lost : ℕ

abbrev pub is_emit : Move → Bool
is_emit (emits ev) = true
is_emit receives = false
is_emit ticks = false
is_emit closes = false
is_emit notices = false
is_emit drains = false
is_emit finishes = false

-- An event joins the end of the log; or it is lost, where 2048 at least are not written; or more of
-- the log is written.
pub data LogStep : Move → Log → Log → Type 0 where
  keep :
      {ev : Event} {l l' : Log}
      → l'.accepted ≡ l.accepted ++ sanitized ev ∷ []
      → l'.written ≡ l.written
      → l'.lost ≡ l.lost
      → LogStep (emits ev) l l'
  lose :
      {ev : Event} {l l' : Log}
      → l.written + default_queue_size ≤ length l.accepted
      → l'.accepted ≡ l.accepted
      → l'.written ≡ l.written
      → l'.lost ≡ (l.lost + 1) % 2 ^ 64
      → LogStep (emits ev) l l'
  write :
      {mv : Move} {l l' : Log}
      → is_emit mv ≡ false
      → l'.accepted ≡ l.accepted
      → l.written ≤ l'.written
      → l'.written ≤ length l'.accepted
      → l'.lost ≡ l.lost
      → LogStep mv l l'

pub data LogRun : List Move → Log → Log → Type 0 where
  here : {l : Log} → LogRun [] l l
  next :
      {mv : Move} {mvs : List Move} {l l' l'' : Log}
      → LogStep mv l l'
      → LogRun mvs l' l''
      → LogRun (mv ∷ mvs) l l''

abbrev pub kept : Emitter → List QueuedEvent
kept e = concat e.exported ++ (e.batch ++ e.queue)

abbrev pub log_of : Emitter → Log
log_of e = record { accepted = kept e; written = length (concat e.exported); lost = e.dropped }

abbrev pub empty_log : Log
empty_log = record { accepted = []; written = 0; lost = 0 }

-- how many events are emitted
abbrev pub emits_in : List Move → ℕ
emits_in [] = 0
emits_in (mv ∷ mvs) = (if is_emit mv then 1 else 0) + emits_in mvs

pub LogStep-counts :
    {mv : Move} {l l' : Log}
    → LogStep mv l l'
    → l.lost + 1 < 2 ^ 64
    → length l'.accepted + l'.lost ≡ length l.accepted + l.lost + (if is_emit mv then 1 else 0)
LogStep-counts (LogStep.keep {ev} {l} a w d) b =
    omega (arith, ap length a, length-append l.accepted (sanitized ev ∷ []))
LogStep-counts (LogStep.lose full a w d) b = omega (arith, ap length a)
LogStep-counts (LogStep.write {mv} q a w v d) b = rw q (omega (arith, ap length a))

pub LogStep-lost :
    {mv : Move} {l l' : Log} → LogStep mv l l' → l'.lost ≤ l.lost + (if is_emit mv then 1 else 0)
LogStep-lost (LogStep.keep a w d) = omega arith
LogStep-lost (LogStep.lose full a w d) = omega arith
LogStep-lost (LogStep.write {mv} q a w v d) = rw q (omega arith)

pub LogRun-counts :
    {mvs : List Move} {l l' : Log}
    → LogRun mvs l l'
    → l.lost + emits_in mvs + 1 < 2 ^ 64
    → length l'.accepted + l'.lost ≡ length l.accepted + l.lost + emits_in mvs
LogRun-counts here b = omega arith
LogRun-counts (next {mv} {mvs} s r) b =
    let lost = LogStep-lost s in
    let step = LogStep-counts s (omega arith) in
    let later = LogRun-counts r (omega arith) in omega arith
