-- ===== src/Common/Arrangement.antt =====
-- Arrangements of a list, and what does not depend on the arrangement.
use Prim.Native.Nat.{suc}
use Prim.Native.String.{String}
use mathlib.Core.Path.{◌≡◌, refl, ap, ap₂, subst, sym, ◌∙◌}
use mathlib.Core.Logic.{◌≢◌, ◌↔◌, inl, inr}
use mathlib.Core.List.{List, [], ◌∷◌, Permᴰ}
use native.Mathlib.Omega.{arith}
use consent_plugin.Common.Lists.{length, All, Some, In}

module _ {A : Type 0} where
  pub All-perm : (P : A → Type 0) {xs ys : List A} → Permᴰ xs ys → All P xs → All P ys
  All-perm P Permᴰ.nil h = tt
  All-perm P (Permᴰ.cons e p) (h, hs) = (rw (← e) h, All-perm P p hs)
  All-perm P (Permᴰ.swap e e') (h, (h', hs)) = (rw (← e') h', (rw (← e) h, hs))
  All-perm P (Permᴰ.trans p q) h = All-perm P q (All-perm P p h)

  pub Some-perm : (P : A → Type 0) {xs ys : List A} → Permᴰ xs ys → Some P xs → Some P ys
  Some-perm P Permᴰ.nil h = absurd h
  Some-perm P (Permᴰ.cons e p) (inl h) = inl (rw (← e) h)
  Some-perm P (Permᴰ.cons e p) (inr h) = inr (Some-perm P p h)
  Some-perm P (Permᴰ.swap e e') (inl h) = inr (inl (rw (← e) h))
  Some-perm P (Permᴰ.swap e e') (inr (inl h)) = inl (rw (← e') h)
  Some-perm P (Permᴰ.swap e e') (inr (inr h)) = inr (inr h)
  Some-perm P (Permᴰ.trans p q) h = Some-perm P q (Some-perm P p h)

  pub length-perm : {xs ys : List A} → Permᴰ xs ys → length xs ≡ length ys
  length-perm Permᴰ.nil = refl
  length-perm (Permᴰ.cons e p) = ap suc (length-perm p)
  length-perm (Permᴰ.swap e e') = refl
  length-perm (Permᴰ.trans p q) = omega (arith, length-perm p, length-perm q)

  pub perm_flip : {xs ys : List A} → Permᴰ xs ys → Permᴰ ys xs
  perm_flip Permᴰ.nil = Permᴰ.nil
  perm_flip (Permᴰ.cons e p) = Permᴰ.cons (sym e) (perm_flip p)
  perm_flip (Permᴰ.swap e e') = Permᴰ.swap (sym e') (sym e)
  perm_flip (Permᴰ.trans p q) = Permᴰ.trans (perm_flip q) (perm_flip p)

  abbrev pub Distinct : List A → Type 0
  Distinct [] = Unit
  Distinct (x ∷ xs) = All (λ y. y ≢ x) xs × Distinct xs

  pub Distinct-perm : {xs ys : List A} → Permᴰ xs ys → Distinct xs → Distinct ys
  Distinct-perm Permᴰ.nil h = tt
  Distinct-perm (Permᴰ.cons {l₁} e p) (h, hs) =
      (All-perm _ p (subst (λ (x : A). All (λ y. y ≢ x) l₁) e h), Distinct-perm p hs)
  Distinct-perm (Permᴰ.swap {l} e e') ((n, h), (h', hs)) = (
    ((λ q. n (cc (e, e', q))), subst (λ (x : A). All (λ y. y ≢ x) l) e' h'),
    (subst (λ (x : A). All (λ y. y ≢ x) l) e h, hs),
  )
  Distinct-perm (Permᴰ.trans p q) h = Distinct-perm q (Distinct-perm p h)

  module _ (le : A → A → Type 0) where
    abbrev pub IsSorted : List A → Type 0
    IsSorted [] = Unit
    IsSorted (x ∷ xs) = All (le x) xs × IsSorted xs

    All-le : (x y : A) (xs : List A) → All (le x) xs → In y xs → le x y
    All-le x y [] h i = absurd i
    All-le x y (z ∷ xs) (p, h) (inl e) = subst (le x) e p
    All-le x y (z ∷ xs) (p, h) (inr i) = All-le x y xs h i

    All-apart : (x : A) (xs : List A) → All (λ y. y ≢ x) xs → ¬ In x xs
    All-apart x [] h i = i
    All-apart x (z ∷ xs) (p, h) (inl e) = p e
    All-apart x (z ∷ xs) (p, h) (inr i) = All-apart x xs h i

    -- a list without the other's head has its tail, where the heads agree
    tail_In :
        (x y k : A) (xs ys : List A)
        → x ≡ y
        → All (λ z. z ≢ x) xs
        → In k xs
        → In k (y ∷ ys)
        → In k ys
    tail_In x y k xs ys e apart i (inl h) =
        absurd (All-apart x xs apart (subst (λ z. In z xs) (sym (e ∙ h)) i))
    tail_In x y k xs ys e apart i (inr h) = h

    -- A sorted list without repetition is determined by what it holds.
    pub IsSorted-unique :
        ((a b : A) → le a b → le b a → a ≡ b)
        → (xs ys : List A) → IsSorted xs
        → IsSorted ys
        → Distinct xs
        → Distinct ys
        → ((k : A) → In k xs → In k ys)
        → ((k : A) → In k ys → In k xs)
        → xs ≡ ys
    IsSorted-unique anti [] [] s t d e f g = refl
    IsSorted-unique anti [] (y ∷ ys) s t d e f g = absurd (g y (inl refl))
    IsSorted-unique anti (x ∷ xs) [] s t d e f g = absurd (f x (inl refl))
    IsSorted-unique anti (x ∷ xs) (y ∷ ys) (s, ss) (t, ts) (d, ds) (e, es) f g =
        let same : x ≡ y = heads (f x (inl refl)) (g y (inl refl)) in
        ap₂ (λ a l. a ∷ l) same
          (IsSorted-unique anti xs ys ss ts ds es
            (λ k i. tail_In x y k xs ys same d i (f k (inr i)))
            (λ k i. tail_In y x k ys xs (sym same) e i (g k (inr i))))
      where
        heads : In x (y ∷ ys) → In y (x ∷ xs) → x ≡ y
        heads (inl p) q = sym p
        heads (inr i) (inl q) = q
        heads (inr i) (inr j) = anti x y (All-le x y xs s j) (All-le y x ys t i)

-- sort.Strings: some arrangement of the texts, in a total order of which antisymmetry is used.
pub record TextSorter : Type 1 where
  pub le : String → String → Type 0
  pub le-antisym : (s t : String) → le s t → le t s → s ≡ t
  pub sort : List String → List String
  pub sort-perm : (l : List String) → Permᴰ l (sort l)
  pub sort-IsSorted : (l : List String) → IsSorted le (sort l)

-- Two lists that hold the same texts, none twice, sort to the same list.
pub sort_unique :
    (t : TextSorter) (xs ys : List String)
    → Distinct xs
    → Distinct ys
    → ((k : String) → In k xs ↔ In k ys)
    → t.sort xs ≡ t.sort ys
sort_unique t xs ys d e h =
    IsSorted-unique t.le t.le-antisym (t.sort xs) (t.sort ys) (t.sort-IsSorted xs)
      (t.sort-IsSorted ys) (Distinct-perm (t.sort-perm xs) d) (Distinct-perm (t.sort-perm ys) e)
      (λ k i. Some-perm _ (t.sort-perm ys) ((h k).0 (Some-perm _ (perm_flip (t.sort-perm xs)) i)))
      (λ k i. Some-perm _ (t.sort-perm xs) ((h k).1 (Some-perm _ (perm_flip (t.sort-perm ys)) i)))
