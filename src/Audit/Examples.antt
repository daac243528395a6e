-- ===== src/Audit/Examples.antt =====
-- An emitter with two events, and two configurations that share an emitter.
use Prim.Native.Char.{Char, code}
use text.Mathlib.TextLemmas.{head-eq_of_cons-eq, tail-eq_of_cons-eq}
use consent_plugin.Common.{
  ℕ, zero, suc, sym, ap, ◌+◌, ◌≡◌, ◌≢◌, ◌↔◌, refl, String, List, true, some, [], ◌∷◌, arith, eq_iff,
  length, take, All,
}
use consent_plugin.Common.Int.{ℤ, pos, negsuc}
use consent_plugin.Common.Join.{NoNul}
use consent_plugin.Common.Lexicographic.{by_codes, sort_by, text_leb}
use consent_plugin.Common.Map.{Map, get}
use consent_plugin.Common.Text.{trim_right, has_suffix, join}
use consent_plugin.Consent.{deny}
use consent_plugin.Audit.{
  AuditConfig, service_name_of, Event, Emitter, serving, stopped, new_emitter, sanitized, emit,
  Move, emits, receives, ticks, closes, notices, drains, finishes, run,
}
use consent_plugin.Audit.Log.{LogRun, empty_log, log_of, concat, emits_in}
use consent_plugin.Audit.Refinement.{run-refines, emits_in-accounts}
use consent_plugin.Audit.Settling.{Settled, Ends, shutdown_settles}
use consent_plugin.Audit.Registry.{key_parts, key, get_emitter, dropped, shutdown_all}
use consent_plugin.Audit.Keys.{SameSettings, key_iff}
use consent_plugin.Audit.Sharing.{Serves, start, next, gets, get_emitter-Serves}

abbrev config : AuditConfig
config = record {
  endpoint = "http://otel:4318/";
  service_name = "";
  timeout = pos 0;
  headers = ("b", "2") ∷ ("a", "1") ∷ [];
}

-- the same headers, written in another order
abbrev reordered : AuditConfig
reordered = record config { headers = ("a", "1") ∷ ("b", "2") ∷ [] }

abbrev event : Event
event = record {
  time = 7;
  request_id = "r1";
  subject = "alice";
  resource = "/people/1";
  method = "GET";
  decision = deny;
  reason = "no consent";
}

abbrev moves : List Move
moves =
    emits event
    ∷ receives
    ∷ ticks
    ∷ emits event
    ∷ closes
    ∷ notices
    ∷ drains
    ∷ emits event
    ∷ drains
    ∷ finishes
    ∷ []

abbrev settled : Emitter
settled = record (new_emitter config) {
  done = true;
  worker = stopped;
  exported = (sanitized event ∷ []) ∷ (sanitized event ∷ sanitized event ∷ []) ∷ [];
}

endpoint_completed : (new_emitter config).endpoint ≡ "http://otel:4318/v1/logs"
unfolding new_emitter trim_right has_suffix
endpoint_completed = refl

moves-run : run moves (new_emitter config) ≡ some settled
unfolding run new_emitter
moves-run = refl

run-refines_example :
    LogRun moves empty_log (log_of settled)
    × (concat settled.exported ≡ take (log_of settled).written (log_of settled).accepted)
run-refines_example = run-refines config moves settled moves-run

emits_in-accounts_example :
    length (concat settled.exported) + length settled.batch + length settled.queue + settled.dropped
    ≡ emits_in moves
unfolding new_emitter
emits_in-accounts_example = emits_in-accounts config moves settled moves-run (omega arith)

abbrev waiting : Emitter
waiting = emit event (new_emitter config)

waiting_serves : waiting.worker ≡ serving
unfolding emit new_emitter
waiting_serves = refl

abbrev ending : List Move
ending = receives ∷ closes ∷ ticks ∷ notices ∷ finishes ∷ []

abbrev ended : Emitter
ended = record waiting {
  queue = [];
  done = true;
  worker = stopped;
  exported = (sanitized event ∷ []) ∷ [];
}

ending-run : run ending waiting ≡ some ended
unfolding run emit new_emitter
ending-run = refl

shutdown_settles_example : (ended.worker ≡ stopped → Settled waiting ended) × Ends waiting ended
shutdown_settles_example =
    shutdown_settles ending waiting ended waiting_serves (refl, (refl, (refl, (refl, (refl, tt)))))
      ending-run

-- a printing of durations for which no two are the same
unary : ℕ → String
unary zero = ""
unary (suc n) = String.◌∷◌ "1" (unary n)

abbrev show_sample : ℤ → String
show_sample (pos n) = unary n
show_sample (negsuc n) = String.◌∷◌ "-" (unary n)

unary-injective : (a b : ℕ) → unary a ≡ unary b → a ≡ b
unfolding unary
unary-injective zero zero h = refl
unary-injective zero (suc b) h = cc
unary-injective (suc a) zero h = cc
unary-injective (suc a) (suc b) h = ap suc (unary-injective a b (tail-eq_of_cons-eq h))

unary_unsigned : (a b : ℕ) → ¬ (unary a ≡ String.◌∷◌ "-" (unary b))
unfolding unary
unary_unsigned zero b h = cc
unary_unsigned (suc a) b h = absurd (one-ne-dash (head-eq_of_cons-eq h))
  where
    one-ne-dash : ◌≢◌ {A = Char} "1" "-"
    one-ne-dash e = absurd (code-ne (ap code e))
      where
        code-ne : ◌≢◌ {A = ℕ} 49 45
        code-ne = omega arith

show_sample-injective : (a b : ℤ) → show_sample a ≡ show_sample b → a ≡ b
show_sample-injective (pos a) (pos b) h = ap pos (unary-injective a b h)
show_sample-injective (pos a) (negsuc b) h = absurd (unary_unsigned a b h)
show_sample-injective (negsuc a) (pos b) h = absurd (unary_unsigned b a (sym h))
show_sample-injective (negsuc a) (negsuc b) h =
    ap negsuc (unary-injective a b (tail-eq_of_cons-eq h))

names_apart : ◌≢◌ {A = String} "a" "b"
names_apart = ground (arith, eq_iff "a" "b")

config_parts : All NoNul (key_parts by_codes show_sample config)
unfolding service_name_of unary sort_by text_leb get
config_parts = omega arith

reordered_parts : All NoNul (key_parts by_codes show_sample reordered)
unfolding service_name_of unary sort_by text_leb get
reordered_parts = omega arith

key_iff_example :
    (key by_codes show_sample config ≡ key by_codes show_sample reordered)
    ↔ SameSettings config reordered
key_iff_example =
    key_iff by_codes show_sample config reordered ((names_apart, tt), (tt, tt))
      (((λ e. names_apart (sym e)), tt), (tt, tt)) show_sample-injective config_parts
      reordered_parts

shared_key : key by_codes show_sample config ≡ key by_codes show_sample reordered
unfolding key service_name_of unary sort_by text_leb get join
shared_key = refl

abbrev one_emitter : Map Emitter
one_emitter = (get_emitter by_codes show_sample config []).1

get_emitter-Serves_example :
    Serves reordered ((get_emitter by_codes show_sample reordered one_emitter).0)
get_emitter-Serves_example =
    get_emitter-Serves by_codes show_sample reordered one_emitter show_sample-injective
      reordered_parts (next start (gets config [] config_parts))

-- An emitter that dropped an event is counted until it is ended.
full_queue : dropped (("k", record settled { dropped = 1 }) ∷ []) ≡ 1
unfolding dropped
full_queue = refl

count_forgotten : dropped (shutdown_all (("k", record settled { dropped = 1 }) ∷ [])).1 ≡ 0
unfolding dropped shutdown_all
count_forgotten = refl
