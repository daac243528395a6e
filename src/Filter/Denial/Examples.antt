-- ===== src/Filter/Denial/Examples.antt =====
-- The headers of a denied response, kept as the list of their names.
use mathlib.Core.Path.{subst}
use mathlib.Core.Option.{some-injective}
use consent_plugin.Common.Text.{has_prefix, strip_prefix}
use consent_plugin.Common.{
  String, ◌≡◌, ◌≢◌, ◌⊎◌, refl, sym, ap, ◌∙◌, inl, inr, true, false, some, List, [], ◌∷◌, ◌==◌,
  eq_iff, arith, In, if◌then◌else◌, Bool-cases,
}
use consent_plugin.Config.Examples.{given}
use consent_plugin.Filter.Denial.{Header, IsHeader, survives_denial, delete_others, deny_response}
use consent_plugin.Filter.Denial.Headers.{deny_response-hides}

abbrev remove : List String → String → List String
remove [] n = []
remove (m ∷ ms) n = let rest = remove ms n in if m == n then rest else m ∷ rest

-- the canonical forms of some names in lower case
abbrev canonical : String → String
canonical n =
    if n == "content-type"
    then "Content-Type"
    else if n == "content-length"
    then "Content-Length"
    else if n == "etag"
    then "Etag"
    else n

abbrev headers : Header (List String)
headers = record {
  names = λ h. some h;
  del = λ h n. remove h (canonical n);
  set = λ h n v. canonical n ∷ h;
  canonical = canonical;
}

In-remove : (n m : String) (h : List String) → In m (remove h n) → In m h × (m ≢ n)
In-remove n m [] i = absurd i
In-remove n m (k ∷ ks) i = elim (Bool-cases (k == n)) [
  | inl same ↦
      let later : In m (remove ks n) = rw same at i in
      let (was, other) = In-remove n m ks later in (inr was, other)
  | inr differs ↦
      let here : In m (k ∷ remove ks n) = rw differs at i in
      elim here [
        | inl e ↦ (inl e, λ f. not_same k n differs (e ∙ f))
        | inr later ↦ let (was, other) = In-remove n m ks later in (inr was, other)
      ]
]
  where
    not_same : (k n : String) → (k == n) ≡ false → k ≢ n
    not_same k n d e = ground (arith, eq_iff k n)

headers-IsHeader : IsHeader headers
headers-IsHeader = record {
  has-del = λ h n m (ns, e, i).
      let (was, other) =
        In-remove (canonical n) m h (subst (In m) (sym (some-injective _ _ e)) i) in
      ((h, refl, was), other);
  has-set = λ h n v m (ns, e, i). elim (subst (In m) (sym (some-injective _ _ e)) i) [
    | inl same ↦ inr (sym same)
    | inr was ↦ inl (h, refl, was)
  ];
}

abbrev upstream : List String
upstream = "Set-Cookie" ∷ "Access-Control-Allow-Origin" ∷ "Etag" ∷ []

denied :
    (deny_response headers given upstream).header
    ≡ "Content-Length" ∷ "Content-Type" ∷ "Access-Control-Allow-Origin" ∷ []
unfolding deny_response delete_others survives_denial has_prefix strip_prefix
denied = refl

deny_response-hides_example :
    (has_prefix "Access-Control-" "Content-Type" ≡ true)
    ⊎ (◌≡◌ {A = String} "Content-Type" "Content-Type")
    ⊎ (◌≡◌ {A = String} "Content-Type" "Content-Length")
deny_response-hides_example =
    deny_response-hides headers headers-IsHeader given upstream upstream "Content-Type" refl
      (refl, (refl, (refl, tt))) (_, ap some denied, inr (inl refl))
