-- ===== src/Process.antt =====
-- The numbers that internal/plugin/context.go and internal/audit/audit.go publish, and main.go.
use text.Mathlib.TextPositions.{eq_refl}
use consent_plugin.Common.{String, ◌≡◌, refl, some}
use consent_plugin.Common.Map.{Map, get, put, get-put}
use consent_plugin.Audit.{Emitter}
use consent_plugin.Audit.Registry.{dropped, shutdown_all}
use consent_plugin.Context.{Store, request_context_store_size, request_contexts_evicted}
use consent_plugin.Metrics.{FloatOps, counter, gauge, CallbackMetric, Metrics, register_callback}

-- The variables of the packages that the published numbers are read from.
pub record Process : Type 0 where
  pub store : Store
  pub emitters : Map Emitter

get-put_self : {V : Type 0} (k : String) (v : V) (m : Map V) → get k (put k v m) ≡ some v
get-put_self k v m = rw (get-put k k v m, eq_refl k) refl

module _ {F : Type 0} (fl : FloatOps F) where
  -- the init functions of the two packages
  unfoldable pub publish_contexts : Metrics F Process → Metrics F Process
  unfolding register_callback request_context_store_size request_contexts_evicted
  publish_contexts m =
      let sized =
        register_callback "consent_request_context_store_size"
          "Request contexts currently held, i.e. gated requests in flight." gauge
          (λ s. fl.of_ℕ (request_context_store_size s.store)) m in
      register_callback "consent_request_contexts_evicted_total"
        "Request contexts evicted because they expired or the store was full." counter
        (λ s. fl.of_ℕ (request_contexts_evicted s.store)) sized

  unfoldable pub publish_dropped : Metrics F Process → Metrics F Process
  unfolding register_callback dropped
  publish_dropped m =
      register_callback "consent_audit_events_dropped_total"
        "Audit events discarded because the export queue was full." counter
        (λ s. fl.of_ℕ (dropped s.emitters)) m

  -- What a page shows of the dropped events falls to nothing when the emitters are ended, however many
  -- they had dropped.
  pub dropped_falls :
      (m : Metrics F Process) (s : Process)
      → (c : CallbackMetric F Process) × (get "consent_audit_events_dropped_total"
            (publish_dropped m).callbacks
          ≡ some c)
        × (c.kind ≡ counter)
        × (c.read s ≡ fl.of_ℕ (dropped s.emitters))
        × (c.read (record s { emitters = (shutdown_all s.emitters).1 }) ≡ fl.of_ℕ 0)
  unfolding publish_dropped register_callback dropped shutdown_all
  dropped_falls m s = (
    record {
      help = "Audit events discarded because the export queue was full.";
      kind = counter;
      read = λ x. fl.of_ℕ (dropped x.emitters);
    },
    get-put_self _ _ m.callbacks,
    refl,
    refl,
    refl,
  )

-- runAndFlush
unfoldable pub run_and_flush : {S : Type 0} → (S → S) → (S → S) → S → S
run_and_flush run flush s = flush (run s)
