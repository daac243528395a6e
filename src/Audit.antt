-- ===== src/Audit.antt =====
-- internal/audit/audit.go: the events of the access decisions, and the emitter that exports them. An
-- emitter and its background worker are one record; each case of a `select` is a move, which `apply`
-- makes where it can be made, so that a list of moves is one interleaving of the request path with
-- the worker.
pub mod Payload
pub mod Registry
pub mod Keys
pub mod Constancy
pub mod Sharing
pub mod Log
pub mod Simulation
pub mod Refinement
pub mod Shutdown
pub mod Settling
mod Examples
use consent_plugin.Common.{
  ℕ, ◌+◌, ◌*◌, ◌%◌, ◌^◌, String, Bool, true, false, Option, none, some, List, [], ◌∷◌, ◌++◌, ◌==◌,
  ltb, leb, if◌then◌else◌, length,
}
use consent_plugin.Common.Int.{ℤ, pos, ltb_ℤ}
use consent_plugin.Common.Map.{Map}
use consent_plugin.Common.Text.{◌<>◌, trim_right, has_suffix}
use consent_plugin.Consent.{Decision}
use consent_plugin.Logging.{codes, sanitize}

-- Config; the timeout is a time.Duration, in nanoseconds
pub record AuditConfig : Type 0 where
  pub endpoint : String
  pub service_name : String
  pub timeout : ℤ
  pub headers : Map String

abbrev pub default_service_name : String
default_service_name = "consent-access-audit"

abbrev pub default_queue_size : ℕ
default_queue_size = 2048

abbrev pub default_batch_size : ℕ
default_batch_size = 64

abbrev pub default_timeout : ℤ
default_timeout = pos (5 * 10 ^ 9)

-- serviceName
unfoldable pub service_name_of : AuditConfig → String
service_name_of cfg = if cfg.service_name == "" then default_service_name else cfg.service_name

-- Event; the time is in nanoseconds
pub record Event : Type 0 where
  pub time : ℕ
  pub request_id : String
  pub subject : String
  pub resource : String
  pub method : String
  pub decision : Decision
  pub reason : String

-- An event in the queue: its reason is the bytes that the sanitizer leaves.
pub record QueuedEvent : Type 0 where
  pub time : ℕ
  pub request_id : String
  pub subject : String
  pub resource : String
  pub method : String
  pub decision : Decision
  pub reason : List ℕ

-- where the worker is: in its loop, in the loop that empties the queue, or past its end
pub data Worker : Type 0 where
  serving draining stopped : Worker

-- Emitter, with what its worker holds: `done` says that the channel is closed, `batch` is the
-- worker's, and `exported` lists the batches that were given to `export`, the oldest first.
pub record Emitter : Type 0 where
  pub endpoint : String
  pub service_name : String
  pub headers : Map String
  pub timeout : ℤ
  pub queue : List QueuedEvent
  pub dropped : ℕ
  pub done : Bool
  pub worker : Worker
  pub batch : List QueuedEvent
  pub exported : List (List QueuedEvent)

abbrev pub logs_endpoint : String → String
logs_endpoint trimmed = if has_suffix "/v1/logs" trimmed then trimmed else trimmed <> "/v1/logs"

-- newEmitter
unfoldable pub new_emitter : AuditConfig → Emitter
unfolding service_name_of
new_emitter cfg = record {
  endpoint = logs_endpoint (trim_right b'/' cfg.endpoint);
  service_name = service_name_of cfg;
  headers = cfg.headers;
  timeout = if ltb_ℤ (pos 0) cfg.timeout then cfg.timeout else default_timeout;
  queue = [];
  dropped = 0;
  done = false;
  worker = serving;
  batch = [];
  exported = [];
}

-- SanitizeReason
unfoldable pub sanitize_reason : String → List ℕ
unfolding codes sanitize
sanitize_reason reason = sanitize (codes reason)

abbrev pub sanitized : Event → QueuedEvent
sanitized ev = record {
  time = ev.time;
  request_id = ev.request_id;
  subject = ev.subject;
  resource = ev.resource;
  method = ev.method;
  decision = ev.decision;
  reason = sanitize_reason ev.reason;
}

-- Emitter.Emit
unfoldable pub emit : Event → Emitter → Emitter
emit ev e =
    if ltb (length e.queue) default_queue_size
    then record e { queue = e.queue ++ sanitized ev ∷ [] }
    else record e { dropped = (e.dropped + 1) % 2 ^ 64 }

-- the `flush` of Emitter.run
unfoldable pub flush : Emitter → Emitter
flush e = elim e.batch [
  | [] ↦ e
  | ev ∷ rest ↦ record e { exported = e.exported ++ (ev ∷ rest) ∷ []; batch = [] }
]

abbrev pub appended : QueuedEvent → List QueuedEvent → Emitter → Emitter
appended ev rest e = record e { queue = rest; batch = e.batch ++ ev ∷ [] }

-- the case of the worker's loop in which an event comes, for a queue
unfoldable pub received : List QueuedEvent → Emitter → Option Emitter
unfolding flush
received [] e = none
received (ev ∷ rest) e =
    let e' = appended ev rest e in
    some (if leb default_batch_size (length e'.batch) then flush e' else e')

-- the case of the inner loop in which an event is left, for a queue
unfoldable pub drained : List QueuedEvent → Emitter → Option Emitter
drained [] e = none
drained (ev ∷ rest) e = some (appended ev rest e)

-- the default of the inner loop, for a queue
unfoldable pub finished : List QueuedEvent → Emitter → Option Emitter
unfolding flush
finished [] e = some (record (flush e) { worker = stopped })
finished (ev ∷ rest) e = none

-- a call of Emit, the cases of the worker, and the closing of `done` by Shutdown
pub data Move : Type 0 where
  emits : Event → Move
  receives ticks closes notices drains finishes : Move

abbrev pub if_serving : Worker → Option Emitter → Option Emitter
if_serving serving r = r
if_serving draining r = none
if_serving stopped r = none

abbrev pub if_draining : Worker → Option Emitter → Option Emitter
if_draining serving r = none
if_draining draining r = r
if_draining stopped r = none

-- Emitter.run, the goroutine, beside Emit and Shutdown; none where the move cannot be made
unfoldable pub apply : Move → Emitter → Option Emitter
unfolding emit received flush drained finished
apply (emits ev) e = some (emit ev e)
apply receives e = if_serving e.worker (received e.queue e)
apply ticks e = if_serving e.worker (some (flush e))
apply closes e = some (record e { done = true })
apply notices e =
    if_serving e.worker (if e.done then some (record e { worker = draining }) else none)
apply drains e = if_draining e.worker (drained e.queue e)
apply finishes e = if_draining e.worker (finished e.queue e)

unfoldable pub run : List Move → Emitter → Option Emitter
unfolding apply
run [] e = some e
run (mv ∷ mvs) e = elim (apply mv e) [ none ↦ none | some e' ↦ run mvs e' ]
