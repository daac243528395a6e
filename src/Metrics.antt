-- ===== src/Metrics.antt =====
-- internal/metrics/metrics.go: the counters, the histograms and the callbacks of the process. Floats
-- are a parameter. Each operation holds its mutex throughout.
pub mod Exposition
pub mod Counts
pub mod Order
mod Examples
use consent_plugin.Common.{
  ℕ, ◌+◌, ◌%◌, ◌^◌, String, Bool, ◌&&◌, Option, none, some, List, [], ◌∷◌, ◌==◌, if◌then◌else◌,
}
use consent_plugin.Common.Int.{ℤ}
use consent_plugin.Common.Map.{Map, get, put}

-- What is used of float64: 0, +, <=, Duration.Seconds, the conversion of an integer, a literal of so many thousandths, and
-- strconv.FormatFloat(x, 'g', -1, 64).
pub record FloatOps (F : Type 0) : Type 0 where
  pub zero_float : F
  pub add : F → F → F
  pub le : F → F → Bool
  pub seconds : ℤ → F
  pub of_ℕ : ℕ → F
  pub thousandths : ℕ → F
  pub format : F → String

-- labelPair
abbrev pub LabelPair : Type 0
LabelPair = String × String

unfoldable pub is_pair : LabelPair → LabelPair → Bool
is_pair (a, b) (c, d) = (a == c) && (b == d)

abbrev pub Counters : Type 0
Counters = List (LabelPair × ℕ)

-- m[key], which is 0 where key is missing
unfoldable pub count_at : LabelPair → Counters → ℕ
unfolding is_pair
count_at k [] = 0
count_at k ((j, n) ∷ m) = if is_pair j k then n else count_at k m

-- m[key]++ of a uint64
unfoldable pub increment : LabelPair → Counters → Counters
unfolding is_pair
increment k [] = (k, 1) ∷ []
increment k ((j, n) ∷ m) = if is_pair j k then (j, (n + 1) % 2 ^ 64) ∷ m else (j, n) ∷ increment k m

-- latencyBuckets, in thousandths
abbrev pub latency_buckets : List ℕ
latency_buckets = 5 ∷ 10 ∷ 25 ∷ 50 ∷ 100 ∷ 250 ∷ 500 ∷ 1000 ∷ 2500 ∷ 5000 ∷ 10000 ∷ []

-- histogram
pub record Histogram (F : Type 0) : Type 0 where
  pub counts : List ℕ
  pub sum : F
  pub total : ℕ

pub data MetricType : Type 0 where
  counter gauge : MetricType

-- make([]uint64, len(bounds))
abbrev pub zeros : List ℕ → List ℕ
zeros [] = []
zeros (b ∷ bs) = 0 ∷ zeros bs

-- callbackMetric; its function reads the state of the number's owner
pub record CallbackMetric (F S : Type 0) : Type 0 where
  pub help : String
  pub kind : MetricType
  pub read : S → F

-- the variables of the package
pub record Metrics (F S : Type 0) : Type 0 where
  pub decisions : Counters
  pub dependency_calls : Counters
  pub latency : Map (Histogram F)
  pub purpose_unconstrained : ℕ
  pub callbacks : Map (CallbackMetric F S)

abbrev pub fail_mode_label : String → String
fail_mode_label mode = if mode == "" then "none" else mode

module _ {F S : Type 0} where
  -- the variables when the process starts, and after Reset
  abbrev pub no_metrics : Metrics F S
  no_metrics = record {
    decisions = [];
    dependency_calls = [];
    latency = [];
    purpose_unconstrained = 0;
    callbacks = [];
  }

  -- RecordDecision
  unfoldable pub record_decision : String → String → Metrics F S → Metrics F S
  unfolding increment
  record_decision decision fail_mode m = record m {
    decisions = increment (decision, fail_mode_label fail_mode) m.decisions;
  }

  -- RecordPurposeUnconstrained
  unfoldable pub record_purpose_unconstrained : Metrics F S → Metrics F S
  record_purpose_unconstrained m = record m {
    purpose_unconstrained = (m.purpose_unconstrained + 1) % 2 ^ 64;
  }

  -- registerCallback
  unfoldable pub register_callback :
      String → String → MetricType → (S → F) → Metrics F S → Metrics F S
  register_callback name help kind read m = record m {
    callbacks = put name (record { help = help; kind = kind; read = read }) m.callbacks;
  }

module _ {F : Type 0} (fl : FloatOps F) where
  -- the loop of `observe` over the bounds, beside the counts
  unfoldable pub observe_counts : F → List ℕ → List ℕ → List ℕ
  observe_counts value [] counts = counts
  observe_counts value (b ∷ bs) [] = []
  observe_counts value (b ∷ bs) (c ∷ cs) =
      (if fl.le value (fl.thousandths b) then (c + 1) % 2 ^ 64 else c) ∷ observe_counts value bs cs

  -- observe
  unfoldable pub observe : F → Histogram F → Histogram F
  unfolding observe_counts
  observe value h = record {
    counts = observe_counts value latency_buckets h.counts;
    sum = fl.add h.sum value;
    total = (h.total + 1) % 2 ^ 64;
  }

  abbrev pub new_histogram : Histogram F
  new_histogram = record { counts = zeros latency_buckets; sum = fl.zero_float; total = 0 }

  abbrev pub or_new : Option (Histogram F) → Histogram F
  or_new none = new_histogram
  or_new (some h) = h

  -- RecordDependencyCall
  unfoldable pub record_dependency_call :
      {S : Type 0} → String → String → ℤ → Metrics F S → Metrics F S
  unfolding increment observe
  record_dependency_call dependency outcome duration m = record m {
    dependency_calls = increment (dependency, outcome) m.dependency_calls;
    latency =
        put dependency (observe (fl.seconds duration) (or_new (get dependency m.latency)))
          m.latency;
  }
