-- ===== src/Metrics/Exposition.antt =====
-- internal/metrics/metrics.go, `render`: the Prometheus text.
use consent_plugin.Common.{ℕ, String, ◌≡◌, ◌≢◌, ◌⊎◌, Option, none, some, List, [], ◌∷◌}
use consent_plugin.Common.Arrangement.{IsSorted, TextSorter}
use consent_plugin.Common.Map.{Map, get}
use consent_plugin.Common.Text.{◌<>◌, itoa}
use mathlib.Core.List.{Permᴰ}
use consent_plugin.Metrics.{
  FloatOps, LabelPair, Counters, count_at, latency_buckets, Histogram, MetricType, counter, gauge,
  CallbackMetric, Metrics, or_new,
}

abbrev pub line : String → String
line s = s <> "\n"

abbrev show_type : MetricType → String
show_type counter = "counter"
show_type gauge = "gauge"

abbrev pub pair_keys : Counters → List LabelPair
pair_keys [] = []
pair_keys ((k, n) ∷ m) = k ∷ pair_keys m

abbrev pub names_of {ℓ} : {V : Type ℓ} → Map V → List String
names_of [] = []
names_of ((k, v) ∷ m) = k ∷ names_of m

-- the comparison that `writeCounter` sorts by
abbrev pub PairLe : TextSorter → LabelPair → LabelPair → Type 0
PairLe t (a, b) (c, d) = ((a ≢ c) × t.le a c) ⊎ ((a ≡ c) × t.le b d)

-- What the rendering takes from Go's library: sort.Strings, sort.Slice by the comparison, and the
-- verb %q.
pub record Printing : Type 1 where
  pub texts : TextSorter
  pub sort : List LabelPair → List LabelPair
  pub sort-perm : (l : List LabelPair) → Permᴰ l (sort l)
  pub sort-IsSorted : (l : List LabelPair) → IsSorted (PairLe texts) (sort l)
  pub quote : String → String

module _ {F : Type 0} (fl : FloatOps F) (p : Printing) where
  unfoldable pub counter_lines : String → String → String → List LabelPair → Counters → String
  counter_lines name first second [] m = ""
  counter_lines name first second ((a, b) ∷ ks) m =
      line (
        name
        <> "{"
        <> first
        <> "="
        <> p.quote a
        <> ","
        <> second
        <> "="
        <> p.quote b
        <> "} "
        <> itoa (count_at (a, b) m))
      <> counter_lines name first second ks m

  -- writeCounter
  unfoldable pub write_counter : String → String → String → String → Counters → String
  unfolding counter_lines
  write_counter name help first second m =
      line ("# HELP " <> name <> " " <> help)
      <> line ("# TYPE " <> name <> " counter")
      <> counter_lines name first second (p.sort (pair_keys m)) m

  abbrev latency_name : String
  latency_name = "consent_dependency_duration_seconds"

  unfoldable pub bucket_lines : String → List ℕ → List ℕ → String
  bucket_lines dependency [] counts = ""
  bucket_lines dependency (b ∷ bs) [] = ""
  bucket_lines dependency (b ∷ bs) (c ∷ cs) =
      line (
        latency_name
        <> "_bucket{dependency="
        <> p.quote dependency
        <> ",le="
        <> p.quote (fl.format (fl.thousandths b))
        <> "} "
        <> itoa c)
      <> bucket_lines dependency bs cs

  -- the lines of one histogram
  unfoldable pub histogram_lines : String → Histogram F → String
  unfolding bucket_lines
  histogram_lines dependency h =
      let label : String = "{dependency=" <> p.quote dependency in
      bucket_lines dependency latency_buckets h.counts
      <> line (latency_name <> "_bucket" <> label <> ",le=\"+Inf\"} " <> itoa h.total)
      <> line (latency_name <> "_sum" <> label <> "} " <> fl.format h.sum)
      <> line (latency_name <> "_count" <> label <> "} " <> itoa h.total)

  unfoldable pub latency_lines : List String → Map (Histogram F) → String
  unfolding histogram_lines
  latency_lines [] m = ""
  latency_lines (d ∷ ds) m = histogram_lines d (or_new fl (get d m)) <> latency_lines ds m

  abbrev callback_line : {S : Type 0} → S → String → Option (CallbackMetric F S) → String
  callback_line s name none = ""
  callback_line s name (some c) =
      line ("# HELP " <> name <> " " <> c.help)
      <> line ("# TYPE " <> name <> " " <> show_type c.kind)
      <> line (name <> " " <> fl.format (c.read s))

  unfoldable pub callback_lines : {S : Type 0} → S → List String → Map (CallbackMetric F S) → String
  callback_lines s [] m = ""
  callback_lines s (n ∷ ns) m = callback_line s n (get n m) <> callback_lines s ns m

  -- render, where the callbacks read the state `s`
  unfoldable pub render : {S : Type 0} → S → Metrics F S → String
  render s m =
      let unconstrained : String = "consent_purpose_unconstrained_total" in
      write_counter "consent_decisions_total"
        "Access decisions enforced, by decision and fail mode." "decision" "fail_mode" m.decisions
      <> write_counter "consent_dependency_calls_total"
          "Outbound calls to a dependency, by outcome." "dependency" "outcome" m.dependency_calls
      <> line (
          "# HELP " <> unconstrained
          <> " Consent checks run without a processing purpose to scope them.")
      <> line ("# TYPE " <> unconstrained <> " counter")
      <> line (unconstrained <> " " <> itoa m.purpose_unconstrained)
      <> line ("# HELP " <> latency_name <> " Duration of outbound dependency calls in seconds.")
      <> line ("# TYPE " <> latency_name <> " histogram")
      <> latency_lines (p.texts.sort (names_of m.latency)) m.latency
      <> callback_lines s (p.texts.sort (names_of m.callbacks)) m.callbacks
