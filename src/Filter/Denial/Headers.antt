-- ===== src/Filter/Denial/Headers.antt =====
-- What a denied caller can see of the upstream's headers.
use mathlib.Core.Path.{subst}
use mathlib.Core.Option.{some-injective}
use consent_plugin.Common.{
  String, ◌≡◌, ◌⊎◌, sym, ◌∙◌, inl, inr, true, some, List, [], ◌∷◌, In, Bool-cases, All,
}
use consent_plugin.Common.Text.{has_prefix}
use consent_plugin.Config.{Config}
use consent_plugin.Filter.Denial.{
  Header, Has, IsHeader, survives_denial, delete_others, deny_response, cleaned,
}

module _ {H : Type 0} (hd : Header H) (laws : IsHeader hd) where
  others_gone :
      (m : String) (ns : List String) (h : H)
      → All (λ n. hd.canonical n ≡ n) ns
      → Has hd (delete_others hd ns h) m
      → Has hd h m × (In m ns → survives_denial hd m ≡ true)
  unfolding delete_others
  others_gone m [] h listed there = (there, λ i. absurd i)
  others_gone m (n ∷ ns) h (form, forms) there = elim (Bool-cases (survives_denial hd n)) [
    | inl stays ↦
        let (was, keeps) = others_gone m ns h forms (rw stays at there) in
        (
          was,
          elim [
            | inl same ↦ subst (λ x. survives_denial hd x ≡ true) same stays
            | inr later ↦ keeps later
          ],
        )
    | inr goes ↦
        let (was, keeps) = others_gone m ns (hd.del h n) forms (rw goes at there) in
        let (before, other) = laws.has-del h n m was in
        (before, elim [ inl same ↦ absurd (other (sym same ∙ sym form)) | inr later ↦ keeps later ])
  ]

  survives_prefix :
      (m : String)
      → hd.canonical m ≡ m
      → survives_denial hd m ≡ true
      → has_prefix "Access-Control-" m ≡ true
  unfolding survives_denial
  survives_prefix m form s = subst (λ n. has_prefix "Access-Control-" n ≡ true) form s

  form_of :
      (m : String) (ns : List String)
      → All (λ n. hd.canonical n ≡ n) ns
      → In m ns
      → hd.canonical m ≡ m
  form_of m [] forms i = absurd i
  form_of m (n ∷ ns) (form, forms) (inl same) = subst (λ x. hd.canonical x ≡ x) same form
  form_of m (n ∷ ns) (form, forms) (inr later) = form_of m ns forms later

  -- A denial tells nothing through the headers: of the names that the view of the upstream's
  -- response lists, only those with the prefix Access-Control- are left, beside the two of the
  -- denial's own body. It holds for a view that lists names in canonical form, and for headers whose
  -- Del removes the canonical form of its name and brings none in, and whose Set brings in the
  -- canonical form of its name at most.
  pub deny_response-hides :
      (cfg : Config) (h : H) (ns : List String) (m : String)
      → hd.names h ≡ some ns
      → All (λ n. hd.canonical n ≡ n) ns
      → Has hd (deny_response hd cfg h).header m
      → (has_prefix "Access-Control-" m ≡ true)
        ⊎ (m ≡ hd.canonical "Content-Type")
        ⊎ (m ≡ hd.canonical "Content-Length")
  unfolding deny_response
  deny_response-hides cfg h ns m listed forms there = elim (laws.has-set _ _ _ m there) [
    | inr own ↦ inr (inr own)
    | inl typed ↦ elim (laws.has-set _ _ _ m typed) [
      | inr own ↦ inr (inl own)
      | inl left ↦
          let ((ns', listed', i), keeps) =
            others_gone m ns h forms (rw (cleaned, listed) at left) in
          let was = subst (In m) (some-injective _ _ (sym listed' ∙ listed)) i in
          inl (survives_prefix m (form_of m ns forms was) (keeps was))
    ]
  ]
