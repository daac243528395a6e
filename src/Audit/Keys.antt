-- ===== src/Audit/Keys.antt =====
-- What the key of a configuration distinguishes, and the emitter that a configuration gets.
use mathlib.Core.Path.{subst, ap₂}
use consent_plugin.Common.{
  String, ◌≡◌, ◌≢◌, ◌↔◌, refl, sym, ap, ◌∙◌, inl, inr, Option, none, some, List, [], ◌∷◌, arith,
  ◌==◌, eq_iff, Bool-cases, Option-cases, All, In,
}
use consent_plugin.Common.Arrangement.{TextSorter, Distinct, Some-perm, perm_flip, sort_unique}
use consent_plugin.Common.Int.{ℤ}
use consent_plugin.Common.Join.{NoNul, join_injective}
use consent_plugin.Common.Map.{Map, IsMap, IsFresh, get}
use consent_plugin.Audit.{AuditConfig, service_name_of}
use consent_plugin.Audit.Registry.{
  keys_of, or_empty, value_of, header_parts, sorted_keys, key_parts, key,
}

keys_of-In : {V : Type 0} (k : String) (v : V) (m : Map V) → get k m ≡ some v → In k (keys_of m)
unfolding get
keys_of-In k v [] h = cc
keys_of-In k v ((j, w) ∷ m) h = elim (Bool-cases (j == k)) [
  | inl e ↦ inl ((eq_iff j k).0 e)
  | inr e ↦ inr (keys_of-In k v m (rw e at h))
]

In-keys_of : {V : Type 0} (k : String) (m : Map V) → In k (keys_of m) → (v : V) × (get k m ≡ some v)
unfolding get
In-keys_of k [] h = absurd h
In-keys_of k ((j, w) ∷ m) (inl e) = (w, rw ((eq_iff j k).1 e) refl)
In-keys_of k ((j, w) ∷ m) (inr i) = elim (Bool-cases (j == k)) [
  | inl e ↦ (w, rw e refl)
  | inr e ↦ let (v, h) = In-keys_of k m i in (v, rw e h)
]

keys_of-All : {V : Type 0} (k : String) (m : Map V) → IsFresh k m → All (λ j. j ≢ k) (keys_of m)
keys_of-All k [] h = tt
keys_of-All k ((j, w) ∷ m) (p, h) = (p, keys_of-All k m h)

keys_of-Distinct : {V : Type 0} (m : Map V) → IsMap m → Distinct (keys_of m)
keys_of-Distinct [] h = tt
keys_of-Distinct ((j, w) ∷ m) (p, h) = (keys_of-All j m p, keys_of-Distinct m h)

header_parts_injective :
    (ns ms : List String) (m m' : Map String)
    → header_parts ns m ≡ header_parts ms m'
    → (ns ≡ ms) × ((k : String) → In k ns → value_of k m ≡ value_of k m')
header_parts_injective [] [] m m' h = (refl, λ k i. absurd i)
header_parts_injective [] (n ∷ ms) m m' h = cc
header_parts_injective (n ∷ ns) [] m m' h = cc
header_parts_injective (n ∷ ns) (n' ∷ ms) m m' h =
    let same : n ≡ n' = cc in
    let value : value_of n m ≡ value_of n' m' = cc in
    let rest : header_parts ns m ≡ header_parts ms m' = cc in
    let (names, values) = header_parts_injective ns ms m m' rest in
    (
      ap₂ (λ a l. a ∷ l) same names,
      λ k. elim [
        | inl e ↦
            subst (λ (x : String). value_of x m ≡ value_of x m') e
              (value ∙ ap (λ a. value_of a m') (sym same))
        | inr i ↦ values k i
      ],
    )

header_parts-value :
    (ns : List String) (m m' : Map String)
    → ((k : String) → get k m ≡ get k m')
    → header_parts ns m ≡ header_parts ns m'
header_parts-value [] m m' h = refl
header_parts-value (n ∷ ns) m m' h =
    ap₂ (λ v l. n ∷ v ∷ l) (ap or_empty (h n)) (header_parts-value ns m m' h)

-- What an emitter is made of; two maps of headers are the same if they have the same entries.
pub record SameSettings (c d : AuditConfig) : Type 0 where
  pub endpoint : c.endpoint ≡ d.endpoint
  pub service_name : service_name_of c ≡ service_name_of d
  pub timeout : c.timeout ≡ d.timeout
  pub headers : (k : String) → get k c.headers ≡ get k d.headers

key_of-none :
    (k : String) (m m' : Map String)
    → (In k (keys_of m') → In k (keys_of m))
    → get k m ≡ none
    → get k m' ≡ none
key_of-none k m m' f h = elim (Option-cases (get k m')) [
  | inl e ↦ e
  | inr (v, e) ↦ let (w, present) = In-keys_of k m (f (keys_of-In k v m' e)) in cc (h, present)
]

or_empty-some :
    (o o' : Option String) (v w : String)
    → o ≡ some v
    → o' ≡ some w
    → or_empty o ≡ or_empty o'
    → o ≡ o'
or_empty-some o o' v w h h' e = ground arith

same_entries :
    (k : String) (m m' : Map String)
    → In k (keys_of m) ↔ In k (keys_of m')
    → (In k (keys_of m) → value_of k m ≡ value_of k m')
    → get k m ≡ get k m'
same_entries k m m' (there, back) values = elim (Option-cases (get k m)) [
  | inl e ↦ e ∙ sym (key_of-none k m m' back e)
  | inr (v, e) ↦
      let i = keys_of-In k v m e in
      let (w, e') = In-keys_of k m' (there i) in
      or_empty-some (get k m) (get k m') v w e e' (values i)
]

module _ (t : TextSorter) (show_duration : ℤ → String) where
  sorted-In :
      (k : String) (m : Map String) → In k (keys_of m) ↔ In k (sorted_keys t show_duration m)
  sorted-In k m =
      (Some-perm _ (t.sort-perm (keys_of m)), Some-perm _ (perm_flip (t.sort-perm (keys_of m))))

  key_of-SameSettings :
      (c d : AuditConfig)
      → IsMap c.headers
      → IsMap d.headers
      → SameSettings c d
      → key t show_duration c ≡ key t show_duration d
  unfolding key
  key_of-SameSettings c d mc md s =
      let carried =
        λ (a b : AuditConfig) (same : (k : String) → get k a.headers ≡ get k b.headers) (k : String)
            (i : In k (keys_of a.headers)).
          let (v, e) = In-keys_of k a.headers i in keys_of-In k v b.headers (sym (same k) ∙ e) in
      let names : sorted_keys t show_duration c.headers ≡ sorted_keys t show_duration d.headers =
        sort_unique t (keys_of c.headers) (keys_of d.headers) (keys_of-Distinct c.headers mc)
          (keys_of-Distinct d.headers md)
          (λ k. (carried c d s.headers k, carried d c (λ j. sym (s.headers j)) k)) in
      let headers =
        ap (λ ns. header_parts ns c.headers) names
        ∙ header_parts-value (sorted_keys t show_duration d.headers) c.headers d.headers
            s.headers in
      cc (s.endpoint, s.service_name, s.timeout, headers)

  pub SameSettings-of-key :
      (c d : AuditConfig)
      → ((a b : ℤ) → show_duration a ≡ show_duration b → a ≡ b)
      → All NoNul (key_parts t show_duration c)
      → All NoNul (key_parts t show_duration d)
      → key t show_duration c ≡ key t show_duration d
      → SameSettings c d
  unfolding key
  SameSettings-of-key c d exact pc pd h =
      let parts = join_injective _ _ _ _ pc pd h in
      let shown : show_duration c.timeout ≡ show_duration d.timeout = cc in
      let listed : header_parts (sorted_keys t show_duration c.headers) c.headers
          ≡ header_parts (sorted_keys t show_duration d.headers) d.headers =
        cc in
      let (names, values) = header_parts_injective _ _ c.headers d.headers listed in
      record {
        endpoint = cc;
        service_name = cc;
        timeout = exact c.timeout d.timeout shown;
        headers = λ k.
            same_entries k c.headers d.headers
              (
                (λ i. (sorted-In k d.headers).1 (subst (In k) names ((sorted-In k c.headers).0 i))),
                λ i.
                    (sorted-In k c.headers).1
                      (subst (In k) (sym names) ((sorted-In k d.headers).0 i)),
              )
              (λ i. values k ((sorted-In k c.headers).0 i));
      }

  -- Where durations are printed exactly, no part holds a NUL and no map of headers holds a name
  -- twice, two configurations share an emitter
  -- exactly when they agree on the endpoint, the service name, the timeout and every header, in
  -- whatever order their maps of headers are run through.
  pub key_iff :
      (c d : AuditConfig)
      → IsMap c.headers
      → IsMap d.headers
      → ((a b : ℤ) → show_duration a ≡ show_duration b → a ≡ b)
      → All NoNul (key_parts t show_duration c)
      → All NoNul (key_parts t show_duration d)
      → (key t show_duration c ≡ key t show_duration d) ↔ SameSettings c d
  key_iff c d mc md exact pc pd =
      (SameSettings-of-key c d exact pc pd, key_of-SameSettings c d mc md)
