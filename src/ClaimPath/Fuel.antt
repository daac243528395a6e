-- ===== src/ClaimPath/Fuel.antt =====
-- The loop of `parseClaimSegment` ends: what it returns is what finitely many of its rounds come to.
use consent_plugin.Common.{
  ℕ, zero, suc, ◌<◌, String, ◌≡◌, ◌≢◌, ◌⊎◌, refl, sym, inl, inr, none, some, true, false, List, [],
  ◌∷◌, arith, ◌==◌, eq_iff, Bool-cases, Option-cases,
}
use Prim.Native.Char.{Char}
use mathlib.Core.Path.{subst}
use consent_plugin.Common.Int.{pos, negsuc, atoi}
use consent_plugin.Common.Text.{cut, is_char}
use consent_plugin.Failure.{Failure, Result, ok, err}
use consent_plugin.ClaimPath.{
  size, after_index, with_digits, with_index, parse_indices, parse_claim_segment, named,
}

-- What rounds of the loop come to, on the text after a bracket: a text that is used up gives no
-- further index; an index at the end of the text is the last one; one before a bracket is followed by
-- what the rounds on the rest come to; and anything else is an error, for the reason that it names.
pub data Rounds : String → Result (List ℕ) → Type 0 where
  used_up : Rounds "" (ok [])
  last :
      {s digits : String} {n : ℕ}
      → s ≢ ""
      → cut b']' s ≡ some (digits, "")
      → atoi digits ≡ some (pos n)
      → Rounds s (ok (n ∷ []))
  another :
      {s digits rest : String} {n : ℕ} {c : Char} {r : Result (List ℕ)}
      → s ≢ ""
      → cut b']' s ≡ some (digits, String.◌∷◌ c rest)
      → atoi digits ≡ some (pos n)
      → is_char b'[' c ≡ true
      → Rounds rest r
      → Rounds s (with_index n r)
  unterminated : {s : String} {f : Failure} → s ≢ "" → cut b']' s ≡ none → Rounds s (err f)
  not_index :
      {s digits rest : String} {f : Failure}
      → s ≢ ""
      → cut b']' s ≡ some (digits, rest)
      → ((n : ℕ) → atoi digits ≢ some (pos n))
      → Rounds s (err f)
  trailing :
      {s digits rest : String} {c : Char} {f : Failure}
      → s ≢ ""
      → cut b']' s ≡ some (digits, String.◌∷◌ c rest)
      → is_char b'[' c ≡ false
      → Rounds s (err f)

-- What follows a separator is shorter.
cut-size : (k : ℕ) (s before after : String) → cut k s ≡ some (before, after) → size after < size s
unfolding cut size
cut-size k String.[] before after h = ground arith
cut-size k (String.◌∷◌ c s) before after h = elim (Bool-cases (is_char k c)) [
  | inl here ↦ ground arith
  | inr later ↦ elim (Option-cases (cut k s)) [
    | inl e ↦ ground arith
    | inr ((b, a), e) ↦ let shorter = cut-size k s b a e in ground arith
  ]
]

after_index-Rounds :
    (fuel n : ℕ) (segment s digits remainder : String)
    → s ≢ ""
    → cut b']' s ≡ some (digits, remainder)
    → atoi digits ≡ some (pos n)
    → ((rest : String) → size rest < size remainder → Rounds rest (parse_indices fuel segment rest))
    → Rounds s (after_index (λ text. parse_indices fuel segment text) segment n remainder)
unfolding after_index size
after_index-Rounds fuel n segment s digits String.[] filled e a later = last filled e a
after_index-Rounds fuel n segment s digits (String.◌∷◌ c rest) filled e a later =
    elim (Bool-cases (is_char b'[' c)) [
      | inl bracket ↦ rw bracket (another filled e a bracket (later rest (omega arith)))
      | inr other ↦ rw other (trailing filled e other)
    ]

with_digits-Rounds :
    (fuel : ℕ) (segment s : String)
    → s ≢ ""
    → ((rest : String) → size rest < size s → Rounds rest (parse_indices fuel segment rest))
    → Rounds s (with_digits (λ text. parse_indices fuel segment text) segment (cut b']' s))
with_digits-Rounds fuel segment s filled later = elim (Option-cases (cut b']' s)) [
  | inl e ↦ rw e (unterminated filled e)
  | inr ((digits, remainder), e) ↦
      let shorter = cut-size b']' s digits remainder e in
      elim (Option-cases (atoi digits)) [
        | inl a ↦ rw (e, with_digits, a) (not_index filled e (λ n h. ground (arith, a)))
        | inr (pos n, a) ↦
            rw (e, with_digits, a)
              (after_index-Rounds fuel n segment s digits remainder filled e a
                (λ rest k. later rest (omega (arith, k, shorter))))
        | inr (negsuc n, a) ↦ rw (e, with_digits, a) (not_index filled e (λ m h. ground (arith, a)))
      ]
]

parse_indices-Rounds :
    (fuel : ℕ) (segment rest : String)
    → size rest < fuel
    → Rounds rest (parse_indices fuel segment rest)
unfolding parse_indices
parse_indices-Rounds zero segment rest h = ground arith
parse_indices-Rounds (suc fuel) segment rest h = elim (Bool-cases (rest == "")) [
  | inl e ↦ rw e (subst (λ s. Rounds s (ok [])) (sym ((eq_iff rest "").0 e)) used_up)
  | inr e ↦ rw e (
      with_digits-Rounds fuel segment rest (λ same. ground (arith, eq_iff rest ""))
        (λ s k. parse_indices-Rounds fuel segment s (omega (arith, k, h))))
]

-- Every segment of a claim path is parsed, by finitely many rounds of the loop over its indices: a
-- segment with no bracket is the name itself, without indices; and where there is one, the name is
-- what comes before it, with what the rounds on the text after it come to.
pub parse_claim_segment-ends :
    (segment : String)
    → ((cut b'[' segment ≡ none) × (parse_claim_segment segment ≡ ok (segment, [])))
      ⊎ ((name : String) × (rest : String) × (r : Result (List ℕ)) × (cut b'[' segment
            ≡ some (name, rest))
          × Rounds rest r
          × (parse_claim_segment segment ≡ named name r))
unfolding parse_claim_segment
parse_claim_segment-ends segment = elim (Option-cases (cut b'[' segment)) [
  | inl e ↦ inl (e, rw (e, parse_claim_segment) refl)
  | inr ((name, rest), e) ↦
      let fuel = suc (size rest) in
      inr (
        name,
        rest,
        parse_indices fuel segment rest,
        e,
        parse_indices-Rounds fuel segment rest (omega arith),
        rw (e, parse_claim_segment) refl,
      )
]
