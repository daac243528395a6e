-- ===== src/Metrics/Order.antt =====
-- The rendering and the order in which Go runs through its maps.
use mathlib.Core.Path.{ap₂}
use consent_plugin.Common.{String, ◌≡◌, ◌↔◌, refl, sym, ap, ◌∙◌, inl, inr, List, [], ◌∷◌, In}
use consent_plugin.Common.Arrangement.{
  TextSorter, Distinct, Distinct-perm, Some-perm, perm_flip, sort_unique, IsSorted-unique,
}
use consent_plugin.Common.Map.{Map, get}
use consent_plugin.Metrics.{
  FloatOps, LabelPair, Counters, count_at, Histogram, CallbackMetric, Metrics,
}
use consent_plugin.Metrics.Exposition.{
  pair_keys, names_of, PairLe, Printing, counter_lines, write_counter, latency_lines,
  callback_lines, render,
}

PairLe-antisym : (t : TextSorter) (x y : LabelPair) → PairLe t x y → PairLe t y x → x ≡ y
PairLe-antisym t (a, b) (c, d) (inl (n, p)) (inl (m, q)) = absurd (n (t.le-antisym a c p q))
PairLe-antisym t (a, b) (c, d) (inl (n, p)) (inr (e, q)) = absurd (n (sym e))
PairLe-antisym t (a, b) (c, d) (inr (e, p)) (inl (m, q)) = absurd (m (sym e))
PairLe-antisym t (a, b) (c, d) (inr (e, p)) (inr (f, q)) =
    ap₂ (λ x y. (x, y)) e (t.le-antisym b d p q)

-- Two maps that hold the same keys, each with the same value: what two orders of one map are.
abbrev pub SameMap {ℓ} : {V : Type ℓ} → Map V → Map V → Type ℓ
SameMap m m' =
    ((k : String) → In k (names_of m) ↔ In k (names_of m')) × ((k : String) → get k m ≡ get k m')

abbrev pub SameCounters : Counters → Counters → Type 0
SameCounters m m' =
    ((k : LabelPair) → In k (pair_keys m) ↔ In k (pair_keys m'))
    × ((k : LabelPair) → count_at k m ≡ count_at k m')

abbrev pub HasDistinctNames {ℓ} : {V : Type ℓ} → Map V → Type 0
HasDistinctNames m = Distinct (names_of m)

-- the same metrics, in other orders of their maps
pub record SameMetrics {F S : Type 0} (m m' : Metrics F S) : Type 0 where
  pub decisions : SameCounters m.decisions m'.decisions
  pub dependency_calls : SameCounters m.dependency_calls m'.dependency_calls
  pub latency : SameMap m.latency m'.latency
  pub purpose_unconstrained : m.purpose_unconstrained ≡ m'.purpose_unconstrained
  pub callbacks : SameMap m.callbacks m'.callbacks

-- no map holds a key twice
pub record IsWellFormed {F S : Type 0} (m : Metrics F S) : Type 0 where
  pub decisions : Distinct (pair_keys m.decisions)
  pub dependency_calls : Distinct (pair_keys m.dependency_calls)
  pub latency : HasDistinctNames m.latency
  pub callbacks : HasDistinctNames m.callbacks

module _ {F : Type 0} (fl : FloatOps F) (p : Printing) where
  counter_lines-same :
      (name first second : String) (ks : List LabelPair) (m m' : Counters)
      → ((k : LabelPair) → count_at k m ≡ count_at k m')
      → counter_lines fl p name first second ks m ≡ counter_lines fl p name first second ks m'
  unfolding counter_lines
  counter_lines-same name first second [] m m' h = refl
  counter_lines-same name first second ((a, b) ∷ ks) m m' h =
      rw (h (a, b)) (rw (counter_lines-same name first second ks m m' h) refl)

  pairs_unique :
      (xs ys : List LabelPair)
      → Distinct xs
      → Distinct ys
      → ((k : LabelPair) → In k xs ↔ In k ys)
      → p.sort xs ≡ p.sort ys
  pairs_unique xs ys d e h =
      IsSorted-unique (PairLe p.texts) (PairLe-antisym p.texts) (p.sort xs) (p.sort ys)
        (p.sort-IsSorted xs) (p.sort-IsSorted ys) (Distinct-perm (p.sort-perm xs) d)
        (Distinct-perm (p.sort-perm ys) e)
        (λ k i. Some-perm _ (p.sort-perm ys) ((h k).0 (Some-perm _ (perm_flip (p.sort-perm xs)) i)))
        (λ k i. Some-perm _ (p.sort-perm xs) ((h k).1 (Some-perm _ (perm_flip (p.sort-perm ys)) i)))

  write_counter-same :
      (name help first second : String) (m m' : Counters)
      → Distinct (pair_keys m)
      → Distinct (pair_keys m')
      → SameCounters m m'
      → write_counter fl p name help first second m ≡ write_counter fl p name help first second m'
  unfolding write_counter
  write_counter-same name help first second m m' d e (keys, values) =
      rw (pairs_unique (pair_keys m) (pair_keys m') d e keys)
        (rw (counter_lines-same name first second (p.sort (pair_keys m')) m m' values) refl)

  latency_lines-same :
      (ds : List String) (m m' : Map (Histogram F))
      → ((k : String) → get k m ≡ get k m')
      → latency_lines fl p ds m ≡ latency_lines fl p ds m'
  unfolding latency_lines
  latency_lines-same [] m m' h = refl
  latency_lines-same (d ∷ ds) m m' h = rw (h d) (rw (latency_lines-same ds m m' h) refl)

  callback_lines-same :
      {S : Type 0} (s : S) (ns : List String) (m m' : Map (CallbackMetric F S))
      → ((k : String) → get k m ≡ get k m')
      → callback_lines fl p s ns m ≡ callback_lines fl p s ns m'
  unfolding callback_lines
  callback_lines-same s [] m m' h = refl
  callback_lines-same s (n ∷ ns) m m' h = rw (h n) (rw (callback_lines-same s ns m m' h) refl)

  -- The page of metrics is stable: two metrics that hold the same entries, none of them twice, are
  -- rendered as the same text, in whatever order Go runs through their maps.
  pub render-stable :
      {S : Type 0} (s : S) (m m' : Metrics F S)
      → IsWellFormed m
      → IsWellFormed m'
      → SameMetrics m m'
      → render fl p s m ≡ render fl p s m'
  unfolding render
  render-stable s m m' v v' same =
      let (names, histograms) = same.latency in
      let (registered, reads) = same.callbacks in
      let latency =
        latency_lines-same (p.texts.sort (names_of m.latency)) m.latency m'.latency histograms
        ∙ ap (λ ds. latency_lines fl p ds m'.latency)
            (sort_unique p.texts (names_of m.latency) (names_of m'.latency) v.latency v'.latency
              names) in
      let callbacks =
        callback_lines-same s (p.texts.sort (names_of m.callbacks)) m.callbacks m'.callbacks reads
        ∙ ap (λ ns. callback_lines fl p s ns m'.callbacks)
            (sort_unique p.texts (names_of m.callbacks) (names_of m'.callbacks) v.callbacks
              v'.callbacks registered) in
      let counters = λ (name help first second : String).
        write_counter-same name help first second m.decisions m'.decisions v.decisions v'.decisions
          same.decisions in
      let calls = λ (name help first second : String).
        write_counter-same name help first second m.dependency_calls m'.dependency_calls
          v.dependency_calls v'.dependency_calls same.dependency_calls in
      rw (counters _ _ _ _)
        (rw (calls _ _ _ _) (rw latency (rw callbacks (rw same.purpose_unconstrained refl))))
