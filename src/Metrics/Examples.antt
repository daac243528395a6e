-- ===== src/Metrics/Examples.antt =====
-- Three calls of dependencies, with thousandths of seconds for floats.
use consent_plugin.Common.{
  ℕ, ◌+◌, ◌*◌, ◌/◌, ◌^◌, ◌<◌, ◌≡◌, ◌≢◌, ◌↔◌, refl, ap, sym, ◌∙◌, inl, inr, String, Bool, true,
  false, List, [], ◌∷◌, arith, ◌==◌, eq_iff, if◌then◌else◌, leb, Bool-cases, In,
}
use consent_plugin.Common.Int.{pos, pos_part}
use consent_plugin.Common.Lexicographic.{
  by_codes, text_leb, text_leb-antisym, text_leb_trans, text_leb-total, sort_by, sort_by-perm,
  sort_by-IsSorted,
}
use consent_plugin.Common.Map.{get}
use consent_plugin.Common.Text.{◌<>◌, itoa}
use consent_plugin.Metrics.{
  FloatOps, LabelPair, is_pair, count_at, Metrics, no_metrics, record_decision,
}
use consent_plugin.Metrics.Counts.{DependencyCall, after, outcomes_of, Describes, after-exact}
use consent_plugin.Metrics.Exposition.{PairLe, Printing, pair_keys, render, counter_lines}
use consent_plugin.Metrics.Order.{SameMetrics, IsWellFormed, render-stable}

abbrev thousandth : FloatOps ℕ
thousandth = record {
  zero_float = 0;
  add = λ a b. a + b;
  le = leb;
  seconds = λ d. pos_part d / 10 ^ 6;
  of_ℕ = λ n. 1000 * n;
  thousandths = λ n. n;
  format = itoa;
}

abbrev calls : List DependencyCall
calls =
    ("consent_manager", "success", pos (30 * 10 ^ 6))
    ∷ ("owner_resolver", "success", pos (3 * 10 ^ 6))
    ∷ ("consent_manager", "error", pos (7 * 10 ^ 6))
    ∷ []

few : outcomes_of thousandth ("consent_manager", "error") calls + 1 < 2 ^ 64
unfolding is_pair
few = omega arith

after-exact_example :
    (count_at ("consent_manager", "error") ((after thousandth calls).dependency_calls)
      ≡ outcomes_of thousandth ("consent_manager", "error") calls)
    × Describes thousandth "consent_manager" calls
        (get "consent_manager" ((after thousandth calls).latency))
after-exact_example = after-exact thousandth "consent_manager" "error" calls few (omega arith)

pair_leb : LabelPair → LabelPair → Bool
pair_leb (a, b) (c, d) = if a == c then text_leb b d else text_leb a c

pair_leb_sound : (x y : LabelPair) → pair_leb x y ≡ true → PairLe by_codes x y
unfolding pair_leb
pair_leb_sound (a, b) (c, d) h = elim (Bool-cases (a == c)) [
  | inl e ↦ inr ((eq_iff a c).0 e, rw e at h)
  | inr e ↦ inl ((λ q. ground (arith, eq_iff a c)), rw e at h)
]

pair_leb-total : (x y : LabelPair) → pair_leb x y ≡ false → PairLe by_codes y x
unfolding pair_leb
pair_leb-total (a, b) (c, d) h = elim (Bool-cases (a == c)) [
  | inl e ↦ inr (sym ((eq_iff a c).0 e), text_leb-total b d (rw e at h))
  | inr e ↦ inl ((λ q. ground (arith, eq_iff a c, sym q)), text_leb-total a c (rw e at h))
]

PairLe-trans : (x y z : LabelPair) → PairLe by_codes x y → PairLe by_codes y z → PairLe by_codes x z
PairLe-trans (a, b) (c, d) (e, f) (inl (n, p)) (inl (m, q)) =
    inl ((λ s. n (text_leb-antisym a c p (rw s q))), text_leb_trans a c e p q)
PairLe-trans (a, b) (c, d) (e, f) (inl (n, p)) (inr (s, q)) = inl (rw (← s) n, rw (← s) p)
PairLe-trans (a, b) (c, d) (e, f) (inr (s, p)) (inl (m, q)) = inl (rw s m, rw s q)
PairLe-trans (a, b) (c, d) (e, f) (inr (s, p)) (inr (s', q)) =
    inr (s ∙ s', text_leb_trans b d f p q)

abbrev printing : Printing
printing = record {
  texts = by_codes;
  sort = sort_by pair_leb;
  sort-perm = sort_by-perm pair_leb;
  sort-IsSorted =
      sort_by-IsSorted pair_leb (PairLe by_codes) pair_leb_sound pair_leb-total PairLe-trans;
  quote = λ s. "\"" <> s <> "\"";
}

abbrev one_each : Metrics ℕ (Unit {0})
one_each = record no_metrics { decisions = (("deny", "none"), 1) ∷ (("allow", "none"), 1) ∷ [] }

abbrev other_order : Metrics ℕ (Unit {0})
other_order = record no_metrics { decisions = (("allow", "none"), 1) ∷ (("deny", "none"), 1) ∷ [] }

allow-ne-deny : ◌≢◌ {A = String} "allow" "deny"
allow-ne-deny = ground (arith, eq_iff "allow" "deny")

pairs_apart : ◌≢◌ {A = LabelPair} ("allow", "none") ("deny", "none")
pairs_apart e = allow-ne-deny (ap (λ p. p.0) e)

same_counts : (k : LabelPair) → count_at k one_each.decisions ≡ count_at k other_order.decisions
unfolding count_at
same_counts k = ground arith

swapped :
    (k : LabelPair) → In k (pair_keys one_each.decisions) → In k (pair_keys other_order.decisions)
swapped k = elim [ inl e ↦ inr (inl e) | inr i ↦ elim i [ inl e ↦ inl e | inr j ↦ absurd j ] ]

swapped_back :
    (k : LabelPair) → In k (pair_keys other_order.decisions) → In k (pair_keys one_each.decisions)
swapped_back k = elim [ inl e ↦ inr (inl e) | inr i ↦ elim i [ inl e ↦ inl e | inr j ↦ absurd j ] ]

abbrev nothing_else : (k : LabelPair) → In k [] ↔ In k []
nothing_else k = ((λ i. i), λ i. i)

orders_agree : SameMetrics one_each other_order
orders_agree = record {
  decisions = ((λ k. (swapped k, swapped_back k)), same_counts);
  dependency_calls = (nothing_else, λ k. refl);
  latency = ((λ k. ((λ i. i), λ i. i)), λ k. refl);
  purpose_unconstrained = refl;
  callbacks = ((λ k. ((λ i. i), λ i. i)), λ k. refl);
}

one_each-IsWellFormed : IsWellFormed one_each
one_each-IsWellFormed = record {
  decisions = ((pairs_apart, tt), (tt, tt));
  dependency_calls = tt;
  latency = tt;
  callbacks = tt;
}

other_order-IsWellFormed : IsWellFormed other_order
other_order-IsWellFormed = record {
  decisions = (((λ e. pairs_apart (sym e)), tt), (tt, tt));
  dependency_calls = tt;
  latency = tt;
  callbacks = tt;
}

render-stable_example :
    render thousandth printing tt one_each ≡ render thousandth printing tt other_order
render-stable_example =
    render-stable thousandth printing tt one_each other_order one_each-IsWellFormed
      other_order-IsWellFormed orders_agree

decision_line :
    counter_lines thousandth printing "d" "decision" "fail_mode"
      (pair_keys (record_decision "deny" "" one_each).decisions)
      (record_decision "deny" "" one_each).decisions
    ≡ "d{decision=\"deny\",fail_mode=\"none\"} 2\nd{decision=\"allow\",fail_mode=\"none\"} 1\n"
unfolding counter_lines record_decision itoa count_at
decision_line = refl
