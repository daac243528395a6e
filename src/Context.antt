-- ===== src/Context.antt =====
-- internal/plugin/context.go: the store that carries a request's context from the request phase to
-- the response phase. Times are nanoseconds; every operation runs under the store's mutex, so an
-- operation is one function of the state. `sort.Slice` is taken through its contract (`Sorter`):
-- the order that it gives to entries of equal age, and the map's iteration order, are left open.
pub mod Entries
pub mod Invariant
pub mod Eviction
pub mod Delivery
pub mod Examples
use mathlib.Core.List.{Permᴰ}
use consent_plugin.Common.{
  ℕ, ◌+◌, ◌-◌, ◌*◌, ◌/◌, ◌%◌, ◌^◌, ◌≤◌, ◌||◌, String, Bool, Option, none, some, List, [], ◌∷◌, ltb,
  leb, if◌then◌else◌, length, take, All,
}
use consent_plugin.Common.Map.{Map, get, put, delete}
use consent_plugin.Common.Text.{◌<>◌, itoa}
use consent_plugin.Json.{Value}

pub record RequestContext : Type 0 where
  pub method : String
  pub path : String
  pub jwt_claims : Map Value

-- RequestContext.String, which does not show the claims
unfoldable pub show_request_context : RequestContext → String
unfolding itoa
show_request_context rc =
    "RequestContext{Method: "
    <> rc.method
    <> ", Path: "
    <> rc.path
    <> ", Claims: "
    <> itoa (length rc.jwt_claims)
    <> "}"

-- RequestContextTTL, MaxRequestContexts and contextEvictionBatch
abbrev pub request_context_ttl : ℕ
request_context_ttl = 60 * 10 ^ 9

abbrev pub max_request_contexts : ℕ
max_request_contexts = 100_000

abbrev pub context_eviction_batch : ℕ
context_eviction_batch = max_request_contexts / 100

pub record StoredRequestContext : Type 0 where
  pub ctx : RequestContext
  pub stored_at : ℕ

-- The package's variables; `evicted` is `contextsEvicted`, a uint64.
pub record Store : Type 0 where
  pub entries : Map StoredRequestContext
  pub evicted : ℕ

abbrev pub empty : Store
empty = record { entries = []; evicted = 0 }

-- `aged` of evictOldestLocked
pub record Aged : Type 0 where
  pub key : String
  pub stored_at : ℕ

abbrev pub IsOrdered : List Aged → Type 0
IsOrdered [] = Unit
IsOrdered (a ∷ rest) = All (λ b. a.stored_at ≤ b.stored_at) rest × IsOrdered rest

-- `sort.Slice(entries, by storedAt)`: some arrangement of the entries, the oldest first.
pub record Sorter : Type 0 where
  pub sort : List Aged → List Aged
  pub sort-perm : (l : List Aged) → Permᴰ l (sort l)
  pub sort-IsOrdered : (l : List Aged) → IsOrdered (sort l)

abbrev pub u64 : ℕ → ℕ
u64 n = n % 2 ^ 64

-- `now.Sub(storedAt) > RequestContextTTL`; an entry stored after `now` has a negative age.
abbrev pub expired : ℕ → StoredRequestContext → Bool
expired now e = ltb request_context_ttl (now - e.stored_at)

-- the loop of sweepLocked: what it leaves in the map, and how many it deletes
unfoldable pub live : ℕ → Map StoredRequestContext → Map StoredRequestContext
live now [] = []
live now ((k, e) ∷ m) = let rest = live now m in if expired now e then rest else (k, e) ∷ rest

unfoldable pub count_expired : ℕ → Map StoredRequestContext → ℕ
count_expired now [] = 0
count_expired now ((k, e) ∷ m) = let n = count_expired now m in if expired now e then n + 1 else n

unfoldable pub sweep_locked : ℕ → Store → Store × ℕ
unfolding live count_expired
sweep_locked now s =
    let n = count_expired now s.entries in
    (record { entries = live now s.entries; evicted = u64 (s.evicted + n) }, n)

-- sweepRequestContexts, which the janitor calls on every tick
unfoldable pub sweep_request_contexts : ℕ → Store → Store × ℕ
unfolding sweep_locked
sweep_request_contexts = sweep_locked

unfoldable pub aged : Map StoredRequestContext → List Aged
aged [] = []
aged ((k, e) ∷ m) = record { key = k; stored_at = e.stored_at } ∷ aged m

unfoldable pub delete_all : List Aged → Map StoredRequestContext → Map StoredRequestContext
unfolding delete
delete_all [] m = m
delete_all (a ∷ rest) m = delete_all rest (delete a.key m)

module _ (sorter : Sorter) where
  unfoldable pub evict_oldest_locked : ℕ → Store → Store × ℕ
  unfolding aged delete_all
  evict_oldest_locked batch s =
      let n = length s.entries in
      if leb batch 0 || leb n 0
      then (s, 0)
      else (let b = if ltb n batch then n else batch in
          (
            record {
              entries = delete_all (take b (sorter.sort (aged s.entries))) s.entries;
              evicted = u64 (s.evicted + b);
            },
            b,
          ))

  unfoldable pub evict_for_space_locked : ℕ → Store → Store
  unfolding sweep_locked evict_oldest_locked
  evict_for_space_locked now s =
      let (swept, n) = sweep_locked now s in
      if ltb 0 n then swept else (evict_oldest_locked context_eviction_batch swept).0

  -- the `if` at the head of StoreRequestContext
  unfoldable pub make_room : ℕ → String → Store → Store
  unfolding evict_for_space_locked get
  make_room now key s =
      if leb max_request_contexts (length s.entries)
      then (elim (get key s.entries) [ none ↦ evict_for_space_locked now s | some _ ↦ s ])
      else s

  unfoldable pub store_request_context : ℕ → String → RequestContext → Store → Store
  unfolding make_room put
  store_request_context now key ctx s =
      let roomy = make_room now key s in
      record roomy { entries = put key (record { ctx = ctx; stored_at = now }) roomy.entries }

-- what LoadAndDeleteRequestContext does with the entry that it found and deleted
unfoldable pub consume : ℕ → StoredRequestContext → Store → Option RequestContext × Store
consume now e s =
    if expired now e then (none, record s { evicted = u64 (s.evicted + 1) }) else (some e.ctx, s)

unfoldable pub load_and_delete_request_context : ℕ → String → Store → Option RequestContext × Store
unfolding consume get delete
load_and_delete_request_context now key s = elim (get key s.entries) [
  | none ↦ (none, s)
  | some e ↦ consume now e (record s { entries = delete key s.entries })
]

-- RequestContextStoreSize and RequestContextsEvicted, which the metrics gauges read
unfoldable pub request_context_store_size : Store → ℕ
request_context_store_size s = length s.entries

unfoldable pub request_contexts_evicted : Store → ℕ
request_contexts_evicted s = s.evicted
