-- ===== src/Common/Join.antt =====
-- Texts joined by a NUL, as the keys of the caches and of the emitters are.
use Prim.Native.Char.{Char, code}
use Prim.Native.String.{String}
use text.Mathlib.TextLemmas.{
  nil-append, cons-append, append_cancel_left, head-eq_of_cons-eq, tail-eq_of_cons-eq,
}
use mathlib.Core.Path.{◌≡◌, refl, sym, ap, ◌∙◌, ap₂}
use mathlib.Core.Logic.{◌≢◌}
use mathlib.Core.List.{List, [], ◌∷◌}
use consent_plugin.Common.Lists.{All}
use consent_plugin.Common.Text.{join, ◌<>◌}

abbrev pub nul_text : String
nul_text = "\0"

nil-ne-cons : {c : Char} {s : String} → ¬ (String.[] ≡ String.◌∷◌ c s)
nil-ne-cons e = cc

-- A text without the separator.
abbrev pub NoNul : String → Type 0
NoNul String.[] = Unit
NoNul (String.◌∷◌ c s) = (code c ≢ 0) × NoNul s

abbrev nul : Char
nul = "\0"

nul_text-cons : (u : String) → nul_text <> u ≡ String.◌∷◌ nul u
nul_text-cons u = cons-append nul "" u ∙ ap (String.◌∷◌ nul) (nil-append u)

-- Two texts without the separator, each followed by one, agree with what follows only if they agree
-- and what follows agrees.
head_cut :
    (s t u v : String)
    → NoNul s
    → NoNul t
    → s <> (nul_text <> u) ≡ t <> (nul_text <> v)
    → (s ≡ t) × (u ≡ v)
head_cut String.[] String.[] u v p q h =
    (refl, append_cancel_left nul_text u v (sym (nil-append _) ∙ h ∙ nil-append _))
head_cut String.[] (String.◌∷◌ d t) u v p (q, qs) h =
    let e = sym (nul_text-cons u) ∙ sym (nil-append _) ∙ h ∙ cons-append d t _ in
    absurd (q (ap code (sym (head-eq_of_cons-eq e))))
head_cut (String.◌∷◌ c s) String.[] u v (p, ps) q h =
    let e = sym (nul_text-cons v) ∙ sym (nil-append _) ∙ sym h ∙ cons-append c s _ in
    absurd (p (ap code (sym (head-eq_of_cons-eq e))))
head_cut (String.◌∷◌ c s) (String.◌∷◌ d t) u v (p, ps) (q, qs) h =
    let e = sym (cons-append c s _) ∙ h ∙ cons-append d t _ in
    let (same, rest) = head_cut s t u v ps qs (tail-eq_of_cons-eq e) in
    (ap₂ (λ a b. String.◌∷◌ a b) (head-eq_of_cons-eq e) same, rest)

-- A text without the separator is not one with it.
no_cut : (s t u : String) → NoNul s → ¬ (s ≡ t <> (nul_text <> u))
no_cut String.[] String.[] u p h = absurd (nil-ne-cons (h ∙ nil-append _ ∙ nul_text-cons u))
no_cut String.[] (String.◌∷◌ d t) u p h = absurd (nil-ne-cons (h ∙ cons-append d t _))
no_cut (String.◌∷◌ c s) String.[] u (p, ps) h =
    absurd (p (ap code (head-eq_of_cons-eq (h ∙ nil-append _ ∙ nul_text-cons u))))
no_cut (String.◌∷◌ c s) (String.◌∷◌ d t) u (p, ps) h =
    no_cut s t u ps (tail-eq_of_cons-eq (h ∙ cons-append d t _))

-- Joining by the separator loses nothing, for texts without it.
pub join_injective :
    (s t : String) (ss ts : List String)
    → All NoNul (s ∷ ss)
    → All NoNul (t ∷ ts)
    → join nul_text (s ∷ ss) ≡ join nul_text (t ∷ ts)
    → ◌≡◌ {A = List String} (s ∷ ss) (t ∷ ts)
unfolding join
join_injective s t [] [] p q h = ap (λ x. x ∷ []) h
join_injective s t [] (t' ∷ ts) (p, ps) q h = absurd (no_cut s t _ p h)
join_injective s t (s' ∷ ss) [] p (q, qs) h = absurd (no_cut t s _ q (sym h))
join_injective s t (s' ∷ ss) (t' ∷ ts) (p, ps) (q, qs) h =
    let (same, rest) = head_cut s t _ _ p q h in cc (same, join_injective s' t' ss ts ps qs rest)
