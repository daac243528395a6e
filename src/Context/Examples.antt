-- ===== src/Context/Examples.antt =====
-- The request-context store at concrete inputs, and a sorter that meets its contract.
use mathlib.Core.List.{Permᴰ}
use mathlib.Core.List.Permᴰ
use consent_plugin.Common.{
  ◌↔◌, ℕ, ◌+◌, ◌*◌, ◌^◌, ◌≤◌, String, ◌≡◌, ◌≢◌, refl, inl, inr, Bool-cases, none, some, List, [],
  ◌∷◌, arith, eq_iff, leb, if◌then◌else◌, length, All,
}
use consent_plugin.Common.Map.{get}
use consent_plugin.Context.{
  RequestContext, StoredRequestContext, Store, Aged, IsOrdered, Sorter, empty, evict_oldest_locked,
  store_request_context, load_and_delete_request_context, sweep_locked,
}
use consent_plugin.Context.Eviction.{sweep_exact, evict_oldest_locked-oldest}
use consent_plugin.Context.Invariant.{IsValid, Call, stores, loads, sweeps, run, run-IsValid}
use consent_plugin.Context.Delivery.{load_once, delivery}

insert : Aged → List Aged → List Aged
insert a [] = a ∷ []
insert a (b ∷ l) = if leb a.stored_at b.stored_at then a ∷ b ∷ l else b ∷ insert a l

pub insertion_sort : List Aged → List Aged
insertion_sort [] = []
insertion_sort (a ∷ l) = insert a (insertion_sort l)

insert-perm : (a : Aged) (l : List Aged) → Permᴰ (a ∷ l) (insert a l)
unfolding insert
insert-perm a [] = Permᴰ.refl _
insert-perm a (b ∷ l) = elim (Bool-cases (leb a.stored_at b.stored_at)) [
  | inl first ↦ rw first (Permᴰ.refl _)
  | inr later ↦ rw later (Permᴰ.trans (Permᴰ.swap refl refl) (Permᴰ.cons refl (insert-perm a l)))
]

pub sort-perm : (l : List Aged) → Permᴰ l (insertion_sort l)
unfolding insertion_sort
sort-perm [] = Permᴰ.nil
sort-perm (a ∷ l) = Permᴰ.trans (Permᴰ.cons refl (sort-perm l)) (insert-perm a (insertion_sort l))

All-insert :
    (t : ℕ) (a : Aged) (l : List Aged)
    → t ≤ a.stored_at
    → All (λ b. t ≤ b.stored_at) l
    → All (λ b. t ≤ b.stored_at) (insert a l)
unfolding insert
All-insert t a [] h k = (h, tt)
All-insert t a (b ∷ l) h (k, ks) = ground (arith, All-insert t a l h ks)

All-below :
    (t u : ℕ) (l : List Aged) → t ≤ u → All (λ b. u ≤ b.stored_at) l → All (λ b. t ≤ b.stored_at) l
All-below t u [] h k = tt
All-below t u (b ∷ l) h (k, ks) = (omega arith, All-below t u l h ks)

insert-IsOrdered : (a : Aged) (l : List Aged) → IsOrdered l → IsOrdered (insert a l)
unfolding insert
insert-IsOrdered a [] h = (tt, tt)
insert-IsOrdered a (b ∷ l) (h, hs) = ground (
  arith,
  insert-IsOrdered a l hs,
  All-insert b.stored_at a l,
  All-below a.stored_at b.stored_at l,
)

pub sort-IsOrdered : (l : List Aged) → IsOrdered (insertion_sort l)
unfolding insertion_sort
sort-IsOrdered [] = tt
sort-IsOrdered (a ∷ l) = insert-IsOrdered a (insertion_sort l) (sort-IsOrdered l)

abbrev pub by_insertion : Sorter
by_insertion = record {
  sort = insertion_sort;
  sort-perm = sort-perm;
  sort-IsOrdered = sort-IsOrdered;
}

abbrev a_context : RequestContext
a_context = record { method = "GET"; path = "/people/1"; jwt_claims = [] }

abbrev at : ℕ → StoredRequestContext
at t = record { ctx = a_context; stored_at = t }

abbrev two_held : Store
two_held = record { entries = ("new", at 90) ∷ ("old", at 5) ∷ []; evicted = 0 }

abbrev minute_later : ℕ
minute_later = 60 * 10 ^ 9 + 6

oldest_goes : (evict_oldest_locked by_insertion 1 two_held).0.entries ≡ ("new", at 90) ∷ []
unfolding evict_oldest_locked insertion_sort insert
oldest_goes = refl

stale_goes : (sweep_locked minute_later two_held).0.entries ≡ ("new", at 90) ∷ []
unfolding sweep_locked
stale_goes = refl

stale_is_absent : (load_and_delete_request_context minute_later "old" two_held).0 ≡ none
unfolding load_and_delete_request_context
stale_is_absent = refl

distinct_names : ◌≢◌ {A = String} "old" "new"
distinct_names = ground (arith, eq_iff "old" "new")

sweep_exact_example :
    ((get "new" (sweep_locked minute_later two_held).0.entries ≡ some (at 90))
      ↔ (get "new" two_held.entries ≡ some (at 90)) × (minute_later ≤ 90 + 60_000_000_000))
    × (length (sweep_locked minute_later two_held).0.entries
          + (sweep_locked minute_later two_held).1
        ≡ 2)
sweep_exact_example =
    sweep_exact minute_later two_held "new" (at 90) ((distinct_names, tt), (tt, tt))

evict_oldest_locked-oldest_example : (get "new" two_held.entries ≡ some (at 90)) × (5 ≤ 90)
unfolding evict_oldest_locked insertion_sort insert get
evict_oldest_locked-oldest_example =
    evict_oldest_locked-oldest by_insertion 1 two_held "new" "old" (at 90) (at 5)
      ((distinct_names, tt), (tt, tt)) refl refl refl

abbrev traffic : List Call
traffic =
    stores 0 "r1" a_context ∷ stores 1 "r2" a_context ∷ loads 2 "r1" ∷ sweeps minute_later ∷ []

run-IsValid_example : IsValid (run by_insertion empty traffic)
run-IsValid_example = run-IsValid by_insertion traffic

load_once_example :
    (load_and_delete_request_context 101 "new"
      (load_and_delete_request_context 100 "new" two_held).1).0
    ≡ none
load_once_example = load_once 100 101 "new" two_held

delivery_example :
    (load_and_delete_request_context 50 "r1" (
      run by_insertion
        (store_request_context by_insertion 10 "r1" a_context two_held)
        (loads 20 "old" ∷ sweeps 30 ∷ []))).0
    ≡ some a_context
delivery_example =
    delivery by_insertion 10 50 "r1" a_context two_held (loads 20 "old" ∷ sweeps 30 ∷ [])
      (record { distinct = ((distinct_names, tt), (tt, tt)); bounded = omega arith })
      (ground (arith, eq_iff "old" "r1"), (omega arith, tt)) (omega arith)
