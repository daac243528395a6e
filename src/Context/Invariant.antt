-- ===== src/Context/Invariant.antt =====
-- The bound on the request-context store, over any sequence of its operations.
use consent_plugin.Common.{
  ℕ, ◌≤◌, ◌<◌, String, ◌≡◌, inl, inr, none, List, [], ◌∷◌, arith, ltb, Bool-cases, length,
}
use consent_plugin.Common.Map.{IsMap, get, IsMap-put, IsMap-delete, length-put, length-delete-le}
use consent_plugin.Context.{
  RequestContext, StoredRequestContext, Store, Sorter, empty, max_request_contexts,
  context_eviction_batch, sweep_locked, sweep_request_contexts, evict_for_space_locked, make_room,
  store_request_context, load_and_delete_request_context,
}
use consent_plugin.Context.Eviction.{
  sweep_locked-IsMap, length-sweep_locked, evict_oldest_locked-IsMap, length-evict_oldest_locked,
}

-- The keys are distinct, and there are at most MaxRequestContexts entries.
pub record IsValid (s : Store) : Type 0 where
  pub distinct : IsMap s.entries
  pub bounded : length s.entries ≤ max_request_contexts

-- A call of the store, with the time at which it runs; `sweeps` is the janitor's tick.
pub data Call : Type 0 where
  stores : ℕ → String → RequestContext → Call
  loads : ℕ → String → Call
  sweeps : ℕ → Call

sweep-IsValid : (now : ℕ) {s : Store} → IsValid s → IsValid (sweep_locked now s).0
sweep-IsValid now {s} v = record {
  distinct = sweep_locked-IsMap now s v.distinct;
  bounded = omega (arith, length-sweep_locked now s);
}

load-IsValid :
    (now : ℕ) (key : String) {s : Store}
    → IsValid s
    → IsValid (load_and_delete_request_context now key s).1
unfolding load_and_delete_request_context
load-IsValid now key {s} v =
    ground (arith, IsMap-delete key s.entries v.distinct, length-delete-le key s.entries)

module _ (sorter : Sorter) where
  -- An overflow frees at least one slot.
  evict_for_space_frees :
      (now : ℕ) (s : Store)
      → IsMap s.entries
      → max_request_contexts ≤ length s.entries
      → IsMap (evict_for_space_locked sorter now s).entries
        × (length (evict_for_space_locked sorter now s).entries < length s.entries)
  unfolding evict_for_space_locked
  evict_for_space_frees now s h full =
      let swept = (sweep_locked now s).0 in
      let distinct = sweep_locked-IsMap now s h in
      elim (Bool-cases (ltb 0 (sweep_locked now s).1)) [
        | inl some_expired ↦ rw some_expired (distinct, ground (arith, length-sweep_locked now s))
        | inr all_live ↦
            let (left, gone) =
              length-evict_oldest_locked sorter context_eviction_batch swept distinct in
            let unswept : (sweep_locked now s).1 ≡ 0 = ground arith in
            rw all_live (
              evict_oldest_locked-IsMap sorter context_eviction_batch swept distinct,
              omega (arith, left, gone, unswept, length-sweep_locked now s),
            )
      ]

  make_room-IsValid :
      (now : ℕ) (key : String) {s : Store} → IsValid s → IsValid (make_room sorter now key s)
  unfolding make_room
  make_room-IsValid now key {s} v = ground (arith, evict_for_space_frees now s v.distinct)

  make_room_free :
      (now : ℕ) (key : String) {s : Store}
      → IsValid s
      → get key (make_room sorter now key s).entries ≡ none
      → length (make_room sorter now key s).entries < max_request_contexts
  unfolding make_room
  make_room_free now key {s} v e = ground (arith, evict_for_space_frees now s v.distinct)

  store-IsValid :
      (now : ℕ) (key : String) (ctx : RequestContext) {s : Store}
      → IsValid s
      → IsValid (store_request_context sorter now key ctx s)
  unfolding store_request_context
  store-IsValid now key ctx {s} v =
      let roomy = (make_room sorter now key s).entries in
      let valid = make_room-IsValid now key v in
      let entry : StoredRequestContext = record { ctx = ctx; stored_at = now } in
      record {
        distinct = IsMap-put key entry roomy valid.distinct;
        bounded =
            ground (arith, length-put key entry roomy, make_room_free now key v, valid.bounded);
      }

  unfoldable pub step : Store → Call → Store
  step s (stores now key ctx) = store_request_context sorter now key ctx s
  step s (loads now key) = (load_and_delete_request_context now key s).1
  step s (sweeps now) = (sweep_request_contexts now s).0

  unfoldable pub run : Store → List Call → Store
  run s [] = s
  run s (c ∷ cs) = run (step s c) cs

  pub step-IsValid : (c : Call) {s : Store} → IsValid s → IsValid (step s c)
  unfolding step sweep_request_contexts
  step-IsValid (stores now key ctx) v = store-IsValid now key ctx v
  step-IsValid (loads now key) v = load-IsValid now key v
  step-IsValid (sweeps now) v = sweep-IsValid now v

  run-IsValid_from : (cs : List Call) {s : Store} → IsValid s → IsValid (run s cs)
  unfolding run
  run-IsValid_from [] v = v
  run-IsValid_from (c ∷ cs) v = run-IsValid_from cs (step-IsValid c v)

  -- From the empty store, any sequence of stores, loads and janitor sweeps at any times leaves at
  -- most MaxRequestContexts entries, with distinct keys.
  pub run-IsValid : (cs : List Call) → IsValid (run empty cs)
  run-IsValid cs = run-IsValid_from cs (record { distinct = tt; bounded = omega arith })
