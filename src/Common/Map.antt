-- ===== src/Common/Map.antt =====
-- Go's `map[string]V` as an association list with distinct keys (`IsMap`).
use Prim.Native.Nat.{◌+◌, ◌≤◌}
use Prim.Native.String.{String}
use mathlib.Core.Path.{◌≡◌, refl}
use mathlib.Core.Logic.{◌≢◌, inl, inr}
use mathlib.Core.List.{List, [], ◌∷◌}
use mathlib.Core.Option.{Option, none, some}
use native.Mathlib.Omega.{arith}
use text.Mathlib.Text.{◌==◌}
use text.Mathlib.TextEquality.{eq_iff}
use consent_plugin.Common.Tests.{if◌then◌else◌, Bool-cases}
use consent_plugin.Common.Lists.{length, All}

abbrev pub Map {ℓ} : Type ℓ → Type ℓ
Map V = List (String × V)

module _ {ℓ} {V : Type ℓ} where
  -- m[k], with the second result `ok`
  unfoldable pub get : String → Map V → Option V
  get k [] = none
  get k ((j, v) ∷ m) = if j == k then some v else get k m

  -- m[k] = v
  unfoldable pub put : String → V → Map V → Map V
  put k v [] = (k, v) ∷ []
  put k v ((j, w) ∷ m) = if j == k then (k, v) ∷ m else (j, w) ∷ put k v m

  -- delete(m, k)
  unfoldable pub delete : String → Map V → Map V
  delete k [] = []
  delete k ((j, w) ∷ m) = let rest = delete k m in if j == k then rest else (j, w) ∷ rest

  abbrev pub IsFresh : String → Map V → Type 0
  IsFresh k m = All (λ e. e.0 ≢ k) m

  abbrev pub IsMap : Map V → Type 0
  IsMap [] = Unit
  IsMap ((k, v) ∷ m) = IsFresh k m × IsMap m

  pub get-put :
      (k j : String) (v : V) (m : Map V) → get j (put k v m) ≡ (if k == j then some v else get j m)
  unfolding get put
  get-put k j v [] = refl
  get-put k j v ((i, w) ∷ m) = ground (arith, eq_iff k j, eq_iff i k, eq_iff i j, get-put k j v m)

  pub get-delete :
      (k j : String) (m : Map V) → get j (delete k m) ≡ (if k == j then none else get j m)
  unfolding get delete
  get-delete k j [] = ground arith
  get-delete k j ((i, w) ∷ m) = ground (arith, get-delete k j m, eq_iff i k, eq_iff i j, eq_iff k j)

  IsFresh-put : (k j : String) (v : V) (m : Map V) → k ≢ j → IsFresh j m → IsFresh j (put k v m)
  unfolding put
  IsFresh-put k j v [] e h = (e, tt)
  IsFresh-put k j v ((i, w) ∷ m) e (p, h) = ground (arith, IsFresh-put k j v m e h)

  pub IsFresh-delete : (k j : String) (m : Map V) → IsFresh j m → IsFresh j (delete k m)
  unfolding delete
  IsFresh-delete k j [] h = tt
  IsFresh-delete k j ((i, w) ∷ m) (p, h) = ground (arith, IsFresh-delete k j m h)

  pub IsFresh-delete_self : (k : String) (m : Map V) → IsFresh k (delete k m)
  unfolding delete
  IsFresh-delete_self k [] = tt
  IsFresh-delete_self k ((i, w) ∷ m) = ground (arith, IsFresh-delete_self k m, eq_iff i k)

  pub IsMap-put : (k : String) (v : V) (m : Map V) → IsMap m → IsMap (put k v m)
  unfolding put
  IsMap-put k v [] h = (tt, tt)
  IsMap-put k v ((i, w) ∷ m) (p, h) =
      ground (arith, eq_iff i k, IsMap-put k v m h, IsFresh-put k i v m)

  pub IsMap-delete : (k : String) (m : Map V) → IsMap m → IsMap (delete k m)
  unfolding delete
  IsMap-delete k [] h = tt
  IsMap-delete k ((i, w) ∷ m) (p, h) = ground (arith, IsMap-delete k m h, IsFresh-delete k i m p)

  pub get_of_IsFresh : (k : String) (m : Map V) → IsFresh k m → get k m ≡ none
  unfolding get
  get_of_IsFresh k [] h = refl
  get_of_IsFresh k ((i, w) ∷ m) (p, h) = ground (arith, eq_iff i k, get_of_IsFresh k m h)

  pub delete_of_IsFresh : (k : String) (m : Map V) → IsFresh k m → delete k m ≡ m
  unfolding delete
  delete_of_IsFresh k [] h = refl
  delete_of_IsFresh k ((i, w) ∷ m) (p, h) = ground (arith, eq_iff i k, delete_of_IsFresh k m h)

  -- A write to a new key adds one entry, and to a present key none.
  pub length-put :
      (k : String) (v : V) (m : Map V)
      → length (put k v m) ≡ elim (get k m) [ none ↦ length m + 1 | some w ↦ length m ]
  unfolding get put
  length-put k v [] = omega arith
  length-put k v ((i, w) ∷ m) = ground (arith, length-put k v m)

  pub length-put-le : (k : String) (v : V) (m : Map V) → length (put k v m) ≤ length m + 1
  unfolding put
  length-put-le k v [] = omega arith
  length-put-le k v ((i, w) ∷ m) = ground (arith, length-put-le k v m)

  pub length-delete-le : (k : String) (m : Map V) → length (delete k m) ≤ length m
  unfolding delete
  length-delete-le k [] = omega arith
  length-delete-le k ((i, w) ∷ m) = ground (arith, length-delete-le k m)

  -- Removing a present key of a map removes exactly one entry.
  pub length-delete :
      (k : String) (v : V) (m : Map V)
      → IsMap m
      → get k m ≡ some v
      → length (delete k m) + 1 ≡ length m
  unfolding get delete
  length-delete k v [] h e = ground arith
  length-delete k v ((i, w) ∷ m) (p, h) e = elim (Bool-cases (i == k)) [
    | inl same ↦
        let fresh : IsFresh k m = rw (← (eq_iff i k).0 same) p in
        rw same (rw (delete_of_IsFresh k m fresh) (omega arith))
    | inr other ↦ ground (arith, length-delete k v m h)
  ]
