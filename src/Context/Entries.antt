-- ===== src/Context/Entries.antt =====
-- Lemmas on the entries of the request-context store: arrangements, expiry, bulk deletion.
use mathlib.Core.List.{Permᴰ}
use mathlib.Core.Path.{subst}
use text.Mathlib.TextPositions.{eq_refl}
use consent_plugin.Common.{
  ℕ, zero, suc, ◌+◌, ◌≤◌, String, ◌≡◌, refl, ◌≢◌, ap, inl, inr, none, some, List, [], ◌∷◌, arith,
  ◌==◌, eq_iff, if◌then◌else◌, Bool-cases, length, take, drop, All, Some, any,
}
use consent_plugin.Common.Arrangement.{All-perm}
use consent_plugin.Common.Map.{
  Map, IsMap, IsFresh, get, delete, get-delete, get_of_IsFresh, IsMap-delete, length-delete,
}
use consent_plugin.Context.{
  StoredRequestContext, Aged, IsOrdered, expired, live, count_expired, aged, delete_all,
}

-- No two of the listed entries have the same key.
abbrev pub HasDistinctKeys : List Aged → Type 0
HasDistinctKeys [] = Unit
HasDistinctKeys (a ∷ rest) = All (λ b. b.key ≢ a.key) rest × HasDistinctKeys rest

pub HasDistinctKeys-perm :
    {xs ys : List Aged} → Permᴰ xs ys → HasDistinctKeys xs → HasDistinctKeys ys
HasDistinctKeys-perm Permᴰ.nil h = tt
HasDistinctKeys-perm (Permᴰ.cons {l₁} e p) (h, hs) = (
  All-perm _ p (subst (λ (x : Aged). All (λ c. c.key ≢ x.key) l₁) e h),
  HasDistinctKeys-perm p hs,
)
HasDistinctKeys-perm (Permᴰ.swap {l} e e') ((n, h), (h', hs)) = (
  ((λ q. n (cc (e, e', q))), subst (λ (x : Aged). All (λ c. c.key ≢ x.key) l) e' h'),
  (subst (λ (x : Aged). All (λ c. c.key ≢ x.key) l) e h, hs),
)
HasDistinctKeys-perm (Permᴰ.trans p q) h = HasDistinctKeys-perm q (HasDistinctKeys-perm p h)

pub All-take : (P : Aged → Type 0) (n : ℕ) (xs : List Aged) → All P xs → All P (take n xs)
All-take P zero xs h = tt
All-take P (suc n) [] h = tt
All-take P (suc n) (x ∷ xs) (p, h) = (p, All-take P n xs h)

pub All-drop : (P : Aged → Type 0) (n : ℕ) (xs : List Aged) → All P xs → All P (drop n xs)
All-drop P zero xs h = h
All-drop P (suc n) [] h = tt
All-drop P (suc n) (x ∷ xs) (p, h) = All-drop P n xs h

pub HasDistinctKeys-take :
    (n : ℕ) (xs : List Aged) → HasDistinctKeys xs → HasDistinctKeys (take n xs)
HasDistinctKeys-take zero xs h = tt
HasDistinctKeys-take (suc n) [] h = tt
HasDistinctKeys-take (suc n) (x ∷ xs) (p, h) =
    (All-take (λ b. b.key ≢ x.key) n xs p, HasDistinctKeys-take n xs h)

-- In an ordered list what is taken is no younger than what is left.
pub take-le-drop :
    (n : ℕ) (xs : List Aged) (t : ℕ)
    → IsOrdered xs
    → Some (λ a. a.stored_at ≡ t) (drop n xs)
    → All (λ a. a.stored_at ≤ t) (take n xs)
take-le-drop zero xs t h i = tt
take-le-drop (suc n) [] t h i = tt
take-le-drop (suc n) (x ∷ xs) t (p, h) i = (
  below (drop n xs) (All-drop (λ b. x.stored_at ≤ b.stored_at) n xs p) i,
  take-le-drop n xs t h i,
)
  where
    below :
        (ys : List Aged)
        → All (λ b. x.stored_at ≤ b.stored_at) ys
        → Some (λ a. a.stored_at ≡ t) ys
        → x.stored_at ≤ t
    below [] k j = absurd j
    below (y ∷ ys) (k, ks) (inl e) = omega arith
    below (y ∷ ys) (k, ks) (inr j) = below ys ks j

-- An entry that is listed, and not among the first `n`, is among the others.
pub Some-drop :
    (P : Aged → Type 0) (n : ℕ) (xs : List Aged)
    → All (λ a. ¬ P a) (take n xs)
    → Some P xs
    → Some P (drop n xs)
Some-drop P zero xs h i = i
Some-drop P (suc n) [] h i = i
Some-drop P (suc n) (x ∷ xs) (p, h) (inl e) = absurd (p e)
Some-drop P (suc n) (x ∷ xs) (p, h) (inr i) = Some-drop P n xs h i

-- The key of `a` is present, with the time of `a`.
abbrev pub IsPresent : Map StoredRequestContext → Aged → Type 0
IsPresent m a = (e : StoredRequestContext) × (get a.key m ≡ some e) × (e.stored_at ≡ a.stored_at)

pub All-weaken :
    (P Q : Aged → Type 0) (xs : List Aged) → ((a : Aged) → P a → Q a) → All P xs → All Q xs
All-weaken P Q [] f h = tt
All-weaken P Q (x ∷ xs) f (p, h) = (f x p, All-weaken P Q xs f h)

pub HasDistinctKeys-aged : (m : Map StoredRequestContext) → IsMap m → HasDistinctKeys (aged m)
unfolding aged
HasDistinctKeys-aged [] h = tt
HasDistinctKeys-aged ((k, e) ∷ m) (p, h) = (fresh m p, HasDistinctKeys-aged m h)
  where
    fresh : (l : Map StoredRequestContext) → IsFresh k l → All (λ b. b.key ≢ k) (aged l)
    fresh [] q = tt
    fresh ((j, x) ∷ l) (q, qs) = (q, fresh l qs)

pub aged-IsPresent : (m : Map StoredRequestContext) → IsMap m → All (IsPresent m) (aged m)
unfolding aged get
aged-IsPresent [] h = tt
aged-IsPresent ((k, e) ∷ m) (p, h) =
    ((e, ground (arith, eq_refl k), refl), later (aged m) (fresh_keys m p) (aged-IsPresent m h))
  where
    fresh_keys : (l : Map StoredRequestContext) → IsFresh k l → All (λ b. b.key ≢ k) (aged l)
    fresh_keys [] q = tt
    fresh_keys ((j, x) ∷ l) (q, qs) = (q, fresh_keys l qs)

    later :
        (l : List Aged)
        → All (λ b. b.key ≢ k) l
        → All (IsPresent m) l
        → All (IsPresent ((k, e) ∷ m)) l
    later [] q i = tt
    later (a ∷ l) (q, qs) ((x, found, same), is) =
        ((x, ground (arith, eq_iff k a.key), same), later l qs is)

pub length-aged : (m : Map StoredRequestContext) → length (aged m) ≡ length m
unfolding aged
length-aged [] = refl
length-aged ((k, e) ∷ m) = ap suc (length-aged m)

-- What a key holds is listed.
pub Some-aged :
    (k : String) (e : StoredRequestContext) (m : Map StoredRequestContext)
    → get k m ≡ some e
    → Some (λ a. (a.key ≡ k) × (a.stored_at ≡ e.stored_at)) (aged m)
unfolding aged get
Some-aged k e [] h = cc
Some-aged k e ((j, x) ∷ m) h = elim (Bool-cases (j == k)) [
  | inl same ↦ inl ((eq_iff j k).0 same, ground arith)
  | inr other ↦ inr (Some-aged k e m (ground arith))
]

-- A bulk deletion hides the keys that it lists and no others.
pub get-delete_all :
    (j : String) (xs : List Aged) (m : Map StoredRequestContext)
    → get j (delete_all xs m) ≡ (if any (λ a. a.key == j) xs then none else get j m)
unfolding delete_all
get-delete_all j [] m = refl
get-delete_all j (x ∷ xs) m =
    ground (arith, get-delete_all j xs (delete x.key m), get-delete x.key j m)

pub IsMap-delete_all :
    (xs : List Aged) (m : Map StoredRequestContext) → IsMap m → IsMap (delete_all xs m)
unfolding delete_all
IsMap-delete_all [] m h = h
IsMap-delete_all (x ∷ xs) m h = IsMap-delete_all xs (delete x.key m) (IsMap-delete x.key m h)

pub IsPresent-delete :
    (k : String) (m : Map StoredRequestContext) (xs : List Aged)
    → All (λ b. b.key ≢ k) xs
    → All (IsPresent m) xs
    → All (IsPresent (delete k m)) xs
IsPresent-delete k m [] h i = tt
IsPresent-delete k m (x ∷ xs) (h, hs) ((e, found, same), is) =
    ((e, ground (arith, get-delete k x.key m, eq_iff k x.key), same), IsPresent-delete k m xs hs is)

-- Deleting present entries of distinct keys removes as many entries as are listed.
pub length-delete_all :
    (xs : List Aged) (m : Map StoredRequestContext)
    → IsMap m
    → HasDistinctKeys xs
    → All (IsPresent m) xs
    → length (delete_all xs m) + length xs ≡ length m
unfolding delete_all
length-delete_all [] m h d i = omega arith
length-delete_all (x ∷ xs) m h (d, ds) ((e, found, same), is) = omega (
  arith,
  length-delete x.key e m h found,
  length-delete_all xs (delete x.key m) (IsMap-delete x.key m h) ds
      (IsPresent-delete x.key m xs d is),
)

-- The sweep keeps what has not expired.
pub get-live :
    (now : ℕ) (k : String) (m : Map StoredRequestContext)
    → IsMap m
    → get k (live now m)
      ≡ elim (get k m) [ none ↦ none | some e ↦ if expired now e then none else some e ]
unfolding live get
get-live now k [] h = refl
get-live now k ((j, e) ∷ m) (p, h) = elim (Bool-cases (j == k)) [
  | inl same ↦
      let fresh : IsFresh k m = rw (← (eq_iff j k).0 same) p in
      ground (arith, get-live now k m h, get_of_IsFresh k m fresh)
  | inr other ↦ ground (arith, get-live now k m h)
]

pub IsFresh-live :
    (now : ℕ) (k : String) (m : Map StoredRequestContext) → IsFresh k m → IsFresh k (live now m)
unfolding live
IsFresh-live now k [] h = tt
IsFresh-live now k ((j, e) ∷ m) (p, h) = ground (arith, IsFresh-live now k m h)

pub IsMap-live : (now : ℕ) (m : Map StoredRequestContext) → IsMap m → IsMap (live now m)
unfolding live
IsMap-live now [] h = tt
IsMap-live now ((j, e) ∷ m) (p, h) = ground (arith, IsMap-live now m h, IsFresh-live now j m p)

pub length-live :
    (now : ℕ) (m : Map StoredRequestContext) → length (live now m) + count_expired now m ≡ length m
unfolding live count_expired
length-live now [] = omega arith
length-live now ((j, e) ∷ m) = ground (arith, length-live now m)
