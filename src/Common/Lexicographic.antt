-- ===== src/Common/Lexicographic.antt =====
-- The order of Go's strings, and a sort of texts that meets the contract of sort.Strings.
use Prim.Native.Char.{Char, code}
use Prim.Native.String.{String}
use text.Mathlib.TextEquality.{codes_equal}
use mathlib.Core.Path.{◌≡◌, refl, ap₂}
use mathlib.Core.Logic.{inl, inr}
use mathlib.Core.Bool.{Bool, true, false, ◌&&◌}
use mathlib.Core.List.{List, [], ◌∷◌, Permᴰ}
use mathlib.Core.List.Permᴰ
use native.Mathlib.Omega.{arith}
use consent_plugin.Common.Arrangement.{TextSorter, IsSorted}
use consent_plugin.Common.Lists.{All}
use consent_plugin.Common.Tests.{ltb, nat_eq, if◌then◌else◌, Bool-cases}

-- s <= t, by the numbers of the characters, which is the order of the bytes
unfoldable pub text_leb : String → String → Bool
text_leb String.[] t = true
text_leb (String.◌∷◌ c s) String.[] = false
text_leb (String.◌∷◌ c s) (String.◌∷◌ d t) =
    let rest = text_leb s t in
    if ltb (code c) (code d) then true else nat_eq (code c) (code d) && rest

abbrev pub Le : String → String → Type 0
Le s t = text_leb s t ≡ true

same_char : (c d : Char) → nat_eq (code c) (code d) ≡ true → c ≡ d
same_char c d h = codes_equal c d (ground arith)

pub text_leb-antisym : (s t : String) → Le s t → Le t s → s ≡ t
unfolding text_leb
text_leb-antisym String.[] String.[] p q = refl
text_leb-antisym String.[] (String.◌∷◌ d t) p q = cc
text_leb-antisym (String.◌∷◌ c s) String.[] p q = cc
text_leb-antisym (String.◌∷◌ c s) (String.◌∷◌ d t) p q =
    let same : nat_eq (code c) (code d) ≡ true = ground arith in
    let there : Le s t = ground arith in
    let back : Le t s = ground arith in
    ap₂ (λ a b. String.◌∷◌ a b) (same_char c d same) (text_leb-antisym s t there back)

pub text_leb_trans : (s t u : String) → Le s t → Le t u → Le s u
unfolding text_leb
text_leb_trans String.[] t u p q = refl
text_leb_trans (String.◌∷◌ c s) String.[] u p q = cc
text_leb_trans (String.◌∷◌ c s) (String.◌∷◌ d t) String.[] p q = cc
text_leb_trans (String.◌∷◌ c s) (String.◌∷◌ d t) (String.◌∷◌ e u) p q =
    ground (arith, text_leb_trans s t u)

pub text_leb-total : (s t : String) → text_leb s t ≡ false → Le t s
unfolding text_leb
text_leb-total String.[] t h = cc
text_leb-total (String.◌∷◌ c s) String.[] h = refl
text_leb-total (String.◌∷◌ c s) (String.◌∷◌ d t) h = ground (arith, text_leb-total s t)

-- Insertion sort by a test.
module _ {A : Type 0} (test : A → A → Bool) where
  unfoldable pub insert_by : A → List A → List A
  insert_by a [] = a ∷ []
  insert_by a (b ∷ l) = if test a b then a ∷ b ∷ l else b ∷ insert_by a l

  unfoldable pub sort_by : List A → List A
  unfolding insert_by
  sort_by [] = []
  sort_by (a ∷ l) = insert_by a (sort_by l)

  insert_by-perm : (a : A) (l : List A) → Permᴰ (a ∷ l) (insert_by a l)
  unfolding insert_by
  insert_by-perm a [] = Permᴰ.refl _
  insert_by-perm a (b ∷ l) = elim (Bool-cases (test a b)) [
    | inl first ↦ rw first (Permᴰ.refl _)
    | inr later ↦
        rw later (Permᴰ.trans (Permᴰ.swap refl refl) (Permᴰ.cons refl (insert_by-perm a l)))
  ]

  pub sort_by-perm : (l : List A) → Permᴰ l (sort_by l)
  unfolding sort_by
  sort_by-perm [] = Permᴰ.nil
  sort_by-perm (a ∷ l) =
      Permᴰ.trans (Permᴰ.cons refl (sort_by-perm l)) (insert_by-perm a (sort_by l))

  -- for a total and transitive order that the test decides
  module _ (le : A → A → Type 0) (sound : (a b : A) → test a b ≡ true → le a b)
      (total : (a b : A) → test a b ≡ false → le b a)
      (trans : (a b c : A) → le a b → le b c → le a c) where
    All-insert_by : (r a : A) (l : List A) → le r a → All (le r) l → All (le r) (insert_by a l)
    unfolding insert_by
    All-insert_by r a [] h k = (h, tt)
    All-insert_by r a (b ∷ l) h (k, ks) = elim (Bool-cases (test a b)) [
      | inl first ↦ rw first (h, (k, ks))
      | inr later ↦ rw later (k, All-insert_by r a l h ks)
    ]

    All-above : (a b : A) (l : List A) → le a b → All (le b) l → All (le a) l
    All-above a b [] h k = tt
    All-above a b (c ∷ l) h (k, ks) = (trans a b c h k, All-above a b l h ks)

    insert_by-IsSorted : (a : A) (l : List A) → IsSorted le l → IsSorted le (insert_by a l)
    unfolding insert_by
    insert_by-IsSorted a [] h = (tt, tt)
    insert_by-IsSorted a (b ∷ l) (h, hs) = elim (Bool-cases (test a b)) [
      | inl first ↦ rw first ((sound a b first, All-above a b l (sound a b first) h), (h, hs))
      | inr later ↦ rw later (All-insert_by b a l (total a b later) h, insert_by-IsSorted a l hs)
    ]

    pub sort_by-IsSorted : (l : List A) → IsSorted le (sort_by l)
    unfolding sort_by
    sort_by-IsSorted [] = tt
    sort_by-IsSorted (a ∷ l) = insert_by-IsSorted a (sort_by l) (sort_by-IsSorted l)

pub text_leb_sound : (s t : String) → Le s t → Le s t
text_leb_sound s t h = h

abbrev pub by_codes : TextSorter
by_codes = record {
  le = Le;
  le-antisym = text_leb-antisym;
  sort = sort_by text_leb;
  sort-perm = sort_by-perm text_leb;
  sort-IsSorted = sort_by-IsSorted text_leb Le text_leb_sound text_leb-total text_leb_trans;
}
