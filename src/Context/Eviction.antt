-- ===== src/Context/Eviction.antt =====
-- What the sweep and the overflow eviction of the request-context store remove.
use Prim.Native.Nat.{min}
use consent_plugin.Common.{
  ℕ, ◌+◌, ◌≤◌, String, ◌≡◌, ◌↔◌, ◌∙◌, refl, ap, ◌||◌, leb, ltb, inl, inr, true, false, none, some,
  List, [], ◌∷◌, arith, ◌==◌, eq_iff, if◌then◌else◌, Bool-cases, length, length-take, take, drop,
  All, Some, any,
}
use consent_plugin.Common.Map.{Map, IsMap, get}
use consent_plugin.Context.{
  StoredRequestContext, Store, Aged, Sorter, expired, sweep_locked, aged, delete_all,
  evict_oldest_locked,
}
use consent_plugin.Common.Arrangement.{All-perm, Some-perm, length-perm}
use consent_plugin.Context.Entries.{
  HasDistinctKeys-perm, All-take, HasDistinctKeys-take, take-le-drop, Some-drop, IsPresent,
  HasDistinctKeys-aged, aged-IsPresent, length-aged, Some-aged, get-delete_all, IsMap-delete_all,
  length-delete_all, get-live, IsMap-live, length-live,
}

pub get-sweep_locked :
    (now : ℕ) (s : Store) (k : String)
    → IsMap s.entries
    → get k (sweep_locked now s).0.entries
      ≡ elim (get k s.entries) [ none ↦ none | some e ↦ if expired now e then none else some e ]
unfolding sweep_locked
get-sweep_locked now s k h = get-live now k s.entries h

-- A sweep keeps an entry, unchanged, exactly if it was stored at most sixty seconds ago, or after
-- `now`; the others are gone, and it returns how many they were.
pub sweep_exact :
    (now : ℕ) (s : Store) (k : String) (e : StoredRequestContext)
    → IsMap s.entries
    → ((get k (sweep_locked now s).0.entries ≡ some e)
        ↔ (get k s.entries ≡ some e) × (now ≤ e.stored_at + 60_000_000_000))
      × (length (sweep_locked now s).0.entries + (sweep_locked now s).1 ≡ length s.entries)
unfolding sweep_locked
sweep_exact now s k e h = (
  (
    λ kept. let found = rw (get-live now k s.entries h) at kept in left found,
    λ (there, young). get-live now k s.entries h ∙ (rw there (stays young)),
  ),
  length-live now s.entries,
)
  where
    left :
        elim (get k s.entries) [ none ↦ none | some d ↦ if expired now d then none else some d ]
          ≡ some e
        → (get k s.entries ≡ some e) × (now ≤ e.stored_at + 60_000_000_000)
    left found = ground arith

    stays : now ≤ e.stored_at + 60_000_000_000 → (if expired now e then none else some e) ≡ some e
    stays young = ground arith

pub sweep_locked-IsMap :
    (now : ℕ) (s : Store) → IsMap s.entries → IsMap (sweep_locked now s).0.entries
unfolding sweep_locked
sweep_locked-IsMap now s h = IsMap-live now s.entries h

pub length-sweep_locked :
    (now : ℕ) (s : Store)
    → length (sweep_locked now s).0.entries + (sweep_locked now s).1 ≡ length s.entries
unfolding sweep_locked
length-sweep_locked now s = length-live now s.entries

none_to_evict : (batch n : ℕ) → (leb batch 0 || leb n 0) ≡ true → min batch n ≡ 0
none_to_evict batch n h = ground arith

batch_capped : (batch n : ℕ) → (if ltb n batch then n else batch) ≡ min batch n
batch_capped batch n = ground arith

module _ (sorter : Sorter) where
  -- what an eviction of `batch` entries deletes: the oldest ones
  abbrev victims : ℕ → Store → List Aged
  victims batch s = take (min batch (length s.entries)) (sorter.sort (aged s.entries))

  evict_oldest_locked_lem :
      (batch : ℕ) (s : Store)
      → ((evict_oldest_locked sorter batch s).0.entries ≡ delete_all (victims batch s) s.entries)
        × ((evict_oldest_locked sorter batch s).1 ≡ min batch (length s.entries))
  unfolding evict_oldest_locked
  evict_oldest_locked_lem batch s = elim (Bool-cases (leb batch 0 || leb (length s.entries) 0)) [
    | inl nothing ↦
        let zero_batch = none_to_evict batch (length s.entries) nothing in
        rw (nothing, zero_batch) (refl, refl)
    | inr something ↦ rw (something, batch_capped) (refl, refl)
  ]

  sorted_IsPresent :
      (s : Store) → IsMap s.entries → All (IsPresent s.entries) (sorter.sort (aged s.entries))
  sorted_IsPresent s h =
      All-perm (IsPresent s.entries) (sorter.sort-perm (aged s.entries))
        (aged-IsPresent s.entries h)

  pub evict_oldest_locked-IsMap :
      (batch : ℕ) (s : Store)
      → IsMap s.entries
      → IsMap (evict_oldest_locked sorter batch s).0.entries
  evict_oldest_locked-IsMap batch s h =
      rw ((evict_oldest_locked_lem batch s).0) (IsMap-delete_all (victims batch s) s.entries h)

  -- An eviction removes as many entries as it returns: the batch, or all if there are fewer.
  pub length-evict_oldest_locked :
      (batch : ℕ) (s : Store)
      → IsMap s.entries
      → (length (evict_oldest_locked sorter batch s).0.entries
            + (evict_oldest_locked sorter batch s).1
          ≡ length s.entries)
        × ((evict_oldest_locked sorter batch s).1 ≡ min batch (length s.entries))
  length-evict_oldest_locked batch s h =
      let (left, gone) = evict_oldest_locked_lem batch s in
      let sorted = sorter.sort (aged s.entries) in
      let n = min batch (length s.entries) in
      (
        omega (
          arith,
          ap length left,
          gone,
          length-aged s.entries,
          length-perm (sorter.sort-perm (aged s.entries)),
          length-take n sorted,
          length-delete_all (victims batch s) s.entries h
              (HasDistinctKeys-take n sorted (
                HasDistinctKeys-perm (sorter.sort-perm (aged s.entries))
                  (HasDistinctKeys-aged s.entries h)))
              (All-take (IsPresent s.entries) n sorted (sorted_IsPresent s h)),
        ),
        gone,
      )

  not_a_victim :
      (k : String) (xs : List Aged)
      → any (λ a. a.key == k) xs ≡ false
      → (t : ℕ) → All (λ a. ¬ ((a.key ≡ k) × (a.stored_at ≡ t))) xs
  not_a_victim k [] h t = tt
  not_a_victim k (x ∷ xs) h t =
      ((λ both. ground (arith, eq_iff x.key k)), not_a_victim k xs (ground arith) t)

  same_time :
      (k : String) (t : ℕ) (xs : List Aged)
      → Some (λ a. (a.key ≡ k) × (a.stored_at ≡ t)) xs
      → Some (λ a. a.stored_at ≡ t) xs
  same_time k t [] i = absurd i
  same_time k t (x ∷ xs) (inl e) = inl e.1
  same_time k t (x ∷ xs) (inr i) = inr (same_time k t xs i)

  left_is_younger :
      (batch : ℕ) (s : Store) (k : String) (e : StoredRequestContext)
      → get k (evict_oldest_locked sorter batch s).0.entries ≡ some e
      → (get k s.entries ≡ some e) × All (λ a. a.stored_at ≤ e.stored_at) (victims batch s)
  left_is_younger batch s k e found =
      let kept = rw ((evict_oldest_locked_lem batch s).0, get-delete_all) at found in
      let missed : any (λ a. a.key == k) (victims batch s) ≡ false = ground arith in
      let there : get k s.entries ≡ some e = ground arith in
      let n = min batch (length s.entries) in
      let sorted = sorter.sort (aged s.entries) in
      let listed =
        Some-perm (λ a. (a.key ≡ k) × (a.stored_at ≡ e.stored_at))
          (sorter.sort-perm (aged s.entries)) (Some-aged k e s.entries there) in
      let left =
        Some-drop (λ a. (a.key ≡ k) × (a.stored_at ≡ e.stored_at)) n sorted
          (not_a_victim k (victims batch s) missed e.stored_at) listed in
      (
        there,
        take-le-drop n sorted e.stored_at (sorter.sort-IsOrdered (aged s.entries))
            (same_time k e.stored_at (drop n sorted) left),
      )

  removed_at :
      (t : ℕ) (j : String) (d : StoredRequestContext) (m : Map StoredRequestContext)
      (xs : List Aged)
      → get j m ≡ some d
      → any (λ a. a.key == j) xs ≡ true
      → All (IsPresent m) xs
      → All (λ a. a.stored_at ≤ t) xs
      → d.stored_at ≤ t
  removed_at t j d m [] there hit present bounds = cc
  removed_at t j d m (x ∷ xs) there hit ((e, found, same), present) (b, bounds) =
      elim (Bool-cases (x.key == j)) [
        | inl here ↦ ground (arith, eq_iff x.key j)
        | inr later ↦ removed_at t j d m xs there (rw later at hit) present bounds
      ]

  -- Of two entries of which an eviction leaves one and removes the other, the removed one was
  -- stored no later; the one that is left is unchanged.
  pub evict_oldest_locked-oldest :
      (batch : ℕ) (s : Store) (k j : String) (e d : StoredRequestContext)
      → IsMap s.entries
      → get k (evict_oldest_locked sorter batch s).0.entries ≡ some e
      → get j s.entries ≡ some d
      → get j (evict_oldest_locked sorter batch s).0.entries ≡ none
      → (get k s.entries ≡ some e) × (d.stored_at ≤ e.stored_at)
  evict_oldest_locked-oldest batch s k j e d h found there removed =
      let (same, bounds) = left_is_younger batch s k e found in
      let gone = rw ((evict_oldest_locked_lem batch s).0, get-delete_all) at removed in
      let n = min batch (length s.entries) in
      (
        same,
        removed_at e.stored_at j d s.entries (victims batch s) there (ground arith)
            (All-take (IsPresent s.entries) n (sorter.sort (aged s.entries)) (sorted_IsPresent s h))
            bounds,
      )
