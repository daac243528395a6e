-- ===== src/Metrics/Counts.antt =====
-- What the counters and the histograms count.
use text.Mathlib.TextPositions.{eq_refl}
use mathlib.Core.Path.{ap₂}
use consent_plugin.Common.{
  ℕ, ◌+◌, ◌^◌, ◌≤◌, ◌<◌, ◌≡◌, refl, ap, sym, ◌∙◌, inl, inr, String, true, false, ◌&&◌, Option, none,
  some, List, [], ◌∷◌, arith, ◌==◌, eq_iff, if◌then◌else◌, Bool-cases,
}
use consent_plugin.Common.Int.{ℤ}
use consent_plugin.Common.Map.{get, get-put, get_of_IsFresh}
use consent_plugin.Metrics.{
  FloatOps, LabelPair, is_pair, Counters, count_at, increment, latency_buckets, Histogram, Metrics,
  no_metrics, observe_counts, observe, zeros, or_new, record_dependency_call,
}

pub is_pair_sound : (j k : LabelPair) → is_pair j k ≡ true → j ≡ k
unfolding is_pair
is_pair_sound (a, b) (c, d) h = ground (arith, eq_iff a c, eq_iff b d)

pub is_pair_self : (k : LabelPair) → is_pair k k ≡ true
unfolding is_pair
is_pair_self (a, b) = ground (arith, eq_iff a a, eq_iff b b)

is_pair_apart : (i j k : LabelPair) → is_pair i k ≡ false → is_pair i j ≡ true → is_pair k j ≡ false
is_pair_apart i j k e f = elim (Bool-cases (is_pair k j)) [
  | inr g ↦ g
  | inl g ↦
      let same : i ≡ k = cc (is_pair_sound i j f, is_pair_sound k j g) in
      let known = is_pair_self k in cc (e, same, known)
]

pub count_at-increment :
    (k j : LabelPair) (m : Counters)
    → count_at j m + 1 < 2 ^ 64
    → count_at j (increment k m) ≡ count_at j m + (if is_pair k j then 1 else 0)
unfolding count_at increment
count_at-increment k j [] h = ground arith
count_at-increment k j ((i, n) ∷ m) h = elim (Bool-cases (is_pair i k)) [
  | inl e ↦
      let same : is_pair i j ≡ is_pair k j = ap (λ x. is_pair x j) (is_pair_sound i k e) in
      ground arith
  | inr e ↦ ground (arith, is_pair_apart i j k e, count_at-increment k j m)
]

-- a call of a dependency: its name, its outcome and its duration
abbrev pub DependencyCall : Type 0
DependencyCall = String × String × ℤ

module _ {F : Type 0} (fl : FloatOps F) where
  -- the metrics after the calls, of which the first is the latest
  unfoldable pub after : List DependencyCall → Metrics F (Unit {0})
  after [] = no_metrics
  after ((dependency, outcome, duration) ∷ calls) =
      record_dependency_call fl dependency outcome duration (after calls)

  -- the calls of a dependency, those of them with an outcome, and those that took no longer than a
  -- bound
  abbrev pub calls_of : String → List DependencyCall → ℕ
  calls_of k [] = 0
  calls_of k ((dependency, outcome, duration) ∷ calls) =
      calls_of k calls + (if dependency == k then 1 else 0)

  abbrev pub outcomes_of : LabelPair → List DependencyCall → ℕ
  outcomes_of k [] = 0
  outcomes_of k ((dependency, outcome, duration) ∷ calls) =
      outcomes_of k calls + (if is_pair (dependency, outcome) k then 1 else 0)

  abbrev pub calls_within : ℕ → String → List DependencyCall → ℕ
  calls_within b k [] = 0
  calls_within b k ((dependency, outcome, duration) ∷ calls) =
      calls_within b k calls
      + (if (dependency == k) && fl.le (fl.seconds duration) (fl.thousandths b) then 1 else 0)

  abbrev pub counts_of : String → List DependencyCall → List ℕ → List ℕ
  counts_of k calls [] = []
  counts_of k calls (b ∷ bs) = calls_within b k calls ∷ counts_of k calls bs

  outcomes-exact :
      (k : LabelPair) (calls : List DependencyCall)
      → outcomes_of k calls + 1 < 2 ^ 64
      → count_at k ((after calls).dependency_calls) ≡ outcomes_of k calls
  unfolding after record_dependency_call count_at
  outcomes-exact k [] h = refl
  outcomes-exact k ((dependency, outcome, duration) ∷ calls) h =
      let before = outcomes-exact k calls (omega arith) in
      ground (arith, count_at-increment (dependency, outcome) k ((after calls).dependency_calls))

  calls_within-le :
      (b : ℕ) (k : String) (calls : List DependencyCall) → calls_within b k calls ≤ calls_of k calls
  calls_within-le b k [] = omega arith
  calls_within-le b k ((dependency, outcome, duration) ∷ calls) =
      ground (arith, calls_within-le b k calls)

  counts_of-new :
      (k : String) (calls : List DependencyCall) (bs : List ℕ)
      → calls_of k calls ≡ 0
      → counts_of k calls bs ≡ zeros bs
  counts_of-new k calls [] h = refl
  counts_of-new k calls (b ∷ bs) h =
      ap₂ (λ n l. n ∷ l) (omega (arith, calls_within-le b k calls)) (counts_of-new k calls bs h)

  observe_counts-counts_of :
      (dependency outcome : String) (duration : ℤ) (calls : List DependencyCall) (bs : List ℕ)
      → calls_of dependency calls + 1 < 2 ^ 64
      → observe_counts fl (fl.seconds duration) bs (counts_of dependency calls bs)
        ≡ counts_of dependency ((dependency, outcome, duration) ∷ calls) bs
  unfolding observe_counts
  observe_counts-counts_of k outcome duration calls [] h = refl
  observe_counts-counts_of k outcome duration calls (b ∷ bs) h =
      ap₂ (λ n l. n ∷ l) (ground (arith, eq_iff k k, calls_within-le b k calls))
        (observe_counts-counts_of k outcome duration calls bs h)

  counts_of-other :
      (k dependency outcome : String) (duration : ℤ) (calls : List DependencyCall) (bs : List ℕ)
      → dependency == k ≡ false
      → counts_of k ((dependency, outcome, duration) ∷ calls) bs ≡ counts_of k calls bs
  counts_of-other k dependency outcome duration calls [] h = refl
  counts_of-other k dependency outcome duration calls (b ∷ bs) h =
      ap₂ (λ n l. n ∷ l) (ground arith) (counts_of-other k dependency outcome duration calls bs h)

  -- The histogram of a dependency, if it has one, is that of its calls.
  abbrev pub Describes : String → List DependencyCall → Option (Histogram F) → Type 0
  Describes k calls none = calls_of k calls ≡ 0
  Describes k calls (some h) =
      (h.counts ≡ counts_of k calls latency_buckets) × (h.total ≡ calls_of k calls)

  observe-Describes :
      (k outcome : String) (duration : ℤ) (calls : List DependencyCall) (o : Option (Histogram F))
      → calls_of k calls + 1 < 2 ^ 64
      → Describes k calls o
      → Describes k
          ((k, outcome, duration) ∷ calls)
          (some (observe fl (fl.seconds duration) (or_new fl o)))
  unfolding observe
  observe-Describes k outcome duration calls none h d = (
    ap (λ l. observe_counts fl (fl.seconds duration) latency_buckets l)
          (sym (counts_of-new k calls latency_buckets d))
        ∙ observe_counts-counts_of k outcome duration calls latency_buckets h,
    ground (arith, eq_iff k k),
  )
  observe-Describes k outcome duration calls (some x) h (c, n) = (
    ap (λ l. observe_counts fl (fl.seconds duration) latency_buckets l) c
        ∙ observe_counts-counts_of k outcome duration calls latency_buckets h,
    ground (arith, eq_iff k k),
  )

  other-Describes :
      (k dependency outcome : String) (duration : ℤ) (calls : List DependencyCall)
      (o : Option (Histogram F))
      → dependency == k ≡ false
      → Describes k calls o
      → Describes k ((dependency, outcome, duration) ∷ calls) o
  other-Describes k dependency outcome duration calls none e d = ground arith
  other-Describes k dependency outcome duration calls (some x) e (c, n) = (
    c ∙ sym (counts_of-other k dependency outcome duration calls latency_buckets e),
    ground arith,
  )

  latency-Describes :
      (k : String) (calls : List DependencyCall)
      → calls_of k calls + 1 < 2 ^ 64
      → Describes k calls (get k ((after calls).latency))
  unfolding after record_dependency_call
  latency-Describes k [] h = rw (get_of_IsFresh {V = Histogram F} k [] tt) refl
  latency-Describes k ((dependency, outcome, duration) ∷ calls) h =
      let before = latency-Describes k calls (omega arith) in
      let old = (after calls).latency in
      let new = λ (d : String). observe fl (fl.seconds duration) (or_new fl (get d old)) in
      elim (Bool-cases (dependency == k)) [
        | inr other ↦
            rw (get-put dependency k (new dependency) old, other)
              (other-Describes k dependency outcome duration calls (get k old) other before)
        | inl same ↦ rw ((eq_iff dependency k).0 same) (
            rw (get-put k k (new k) old, eq_refl k)
              (observe-Describes k outcome duration calls (get k old) (omega arith) before))
      ]

  -- The metrics count exactly: after any calls of dependencies, fewer than 2^64 - 1 of them per label, the
  -- counter of a dependency and an outcome is the number of the calls with both; and the histogram
  -- of a dependency has in its total the number of its calls, and under each bound the number of
  -- those that took no longer, and it is missing only if there was no call.
  pub after-exact :
      (k outcome : String) (calls : List DependencyCall)
      → outcomes_of (k, outcome) calls + 1 < 2 ^ 64
      → calls_of k calls + 1 < 2 ^ 64
      → (count_at (k, outcome) ((after calls).dependency_calls) ≡ outcomes_of (k, outcome) calls)
        × Describes k calls (get k ((after calls).latency))
  after-exact k outcome calls h h' =
      (outcomes-exact (k, outcome) calls h, latency-Describes k calls h')
