-- ===== src/Context/Delivery.antt =====
-- What the response phase loads from the request-context store, and when.
use text.Mathlib.TextPositions.{eq_refl}
use consent_plugin.Common.{
  ℕ, ◌-◌, ◌≤◌, ◌<◌, String, ◌≡◌, refl, ◌≢◌, ◌↔◌, ◌==◌, inl, inr, none, some, List, [], ◌∷◌, arith,
  eq_iff, if◌then◌else◌, Option-cases, length,
}
use consent_plugin.Common.Map.{get, get-put, get-delete}
use consent_plugin.Context.{
  RequestContext, StoredRequestContext, Store, Sorter, request_context_ttl, max_request_contexts,
  sweep_request_contexts, make_room, store_request_context, load_and_delete_request_context,
}
use consent_plugin.Context.Eviction.{get-sweep_locked}
use consent_plugin.Context.Invariant.{IsValid, Call, stores, loads, sweeps, step, run, step-IsValid}

-- What a load leaves of the keys: its own is gone, the others are as they were.
pub get-load :
    (now : ℕ) (key j : String) (s : Store)
    → get j (load_and_delete_request_context now key s).1.entries
      ≡ (if key == j then none else get j s.entries)
unfolding load_and_delete_request_context
get-load now key j s = ground (arith, get-delete key j s.entries, eq_iff key j)

-- A load returns a context exactly when its key holds an entry that has not outlived the TTL, and
-- then it is that entry's context.
pub load_iff :
    (now : ℕ) (key : String) (ctx : RequestContext) (s : Store)
    → ((load_and_delete_request_context now key s).0 ≡ some ctx) ↔ (
        (e : StoredRequestContext) × (get key s.entries ≡ some e)
        × (e.ctx ≡ ctx)
        × (now - e.stored_at ≤ request_context_ttl))
unfolding load_and_delete_request_context
load_iff now key ctx s = (there, back)
  where
    there :
        (load_and_delete_request_context now key s).0 ≡ some ctx
        → (e : StoredRequestContext) × (get key s.entries ≡ some e)
          × (e.ctx ≡ ctx)
          × (now - e.stored_at ≤ request_context_ttl)
    there h = elim (Option-cases (get key s.entries)) [
      | inl missing ↦ ground arith
      | inr (e, found) ↦ (e, found, ground arith, ground arith)
    ]

    back :
        (e : StoredRequestContext) × (get key s.entries ≡ some e)
          × (e.ctx ≡ ctx)
          × (now - e.stored_at ≤ request_context_ttl)
        → (load_and_delete_request_context now key s).0 ≡ some ctx
    back (e, found, same, young) = ground arith

-- A context is consumed once: a second load of the same key, at any time, returns nothing.
pub load_once :
    (now later : ℕ) (key : String) (s : Store)
    → (load_and_delete_request_context later key (load_and_delete_request_context now key s).1).0
      ≡ none
load_once now later key s =
    absent (load_and_delete_request_context now key s).1
      (ground (arith, get-load now key key s, eq_refl key))
  where
    absent :
        (r : Store)
        → get key r.entries ≡ none
        → (load_and_delete_request_context later key r).0 ≡ none
    absent r gone = unfold load_and_delete_request_context in ground arith

module _ (sorter : Sorter) where
  -- A store makes its own key hold its own context, also when the store was full.
  pub get-store_self :
      (now : ℕ) (key : String) (ctx : RequestContext) (s : Store)
      → get key (store_request_context sorter now key ctx s).entries
        ≡ some (record { ctx = ctx; stored_at = now })
  unfolding store_request_context
  get-store_self now key ctx s = simp (get-put, eq_refl)

  -- The call cannot remove or replace what `key` has held since time `t`.
  abbrev pub Spares : String → ℕ → Store → Call → Type 0
  Spares key t s (stores now j ctx) = (j ≢ key) × (length s.entries < max_request_contexts)
  Spares key t s (loads now j) = j ≢ key
  Spares key t s (sweeps now) = now - t ≤ request_context_ttl

  abbrev pub SparesAll : String → ℕ → Store → List Call → Type 0
  SparesAll key t s [] = Unit
  SparesAll key t s (c ∷ cs) = Spares key t s c × SparesAll key t (step sorter s c) cs

  get-step :
      (key : String) (e : StoredRequestContext) (s : Store) (c : Call)
      → IsValid s
      → get key s.entries ≡ some e
      → Spares key e.stored_at s c
      → get key (step sorter s c).entries ≡ some e
  unfolding step store_request_context make_room sweep_request_contexts
  get-step key e s (stores now j ctx) v found (other, room) =
      let entry : StoredRequestContext = record { ctx = ctx; stored_at = now } in
      ground (arith, get-put j key entry s.entries, eq_iff j key)
  get-step key e s (loads now j) v found other = ground (arith, get-load now j key s, eq_iff j key)
  get-step key e s (sweeps now) v found young =
      rw (get-sweep_locked now s key v.distinct) (ground arith)

  get-run :
      (key : String) (e : StoredRequestContext) (s : Store) (cs : List Call)
      → IsValid s
      → get key s.entries ≡ some e
      → SparesAll key e.stored_at s cs
      → get key (run sorter s cs).entries ≡ some e
  unfolding run
  get-run key e s [] v found h = found
  get-run key e s (c ∷ cs) v found (h, hs) =
      get-run key e (step sorter s c) cs (step-IsValid sorter c v) (get-step key e s c v found h) hs

  -- The context stored for a request is the one loaded for it, whatever happens in between, as long
  -- as its own key is not used, no other store meets a full map, the janitor does not find it
  -- expired, and the load comes within the TTL.
  pub delivery :
      (t now : ℕ) (key : String) (ctx : RequestContext) (s : Store) (cs : List Call)
      → IsValid s
      → SparesAll key t (store_request_context sorter t key ctx s) cs
      → now - t ≤ request_context_ttl
      → (load_and_delete_request_context now key
          (run sorter (store_request_context sorter t key ctx s) cs)).0
        ≡ some ctx
  delivery t now key ctx s cs v spared young =
      let entry : StoredRequestContext = record { ctx = ctx; stored_at = t } in
      let stored = store_request_context sorter t key ctx s in
      let valid : IsValid stored = unfold step in step-IsValid sorter (stores t key ctx) v in
      (load_iff now key ctx (run sorter stored cs)).1
        (entry, get-run key entry stored cs valid (get-store_self t key ctx s) spared, refl, young)
