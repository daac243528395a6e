-- ===== src/Logging/Limiter.antt =====
-- Runs of calls of the rate limiter.
use consent_plugin.Common.{
  ℕ, ◌+◌, ◌%◌, ◌^◌, ◌≤◌, ◌<◌, ◌≡◌, refl, inl, inr, String, Bool, true, false, none, some, List, [],
  ◌∷◌, arith, ◌==◌, eq_iff, if◌then◌else◌, leb, length, Bool-cases, Option-cases,
}
use consent_plugin.Common.Map.{Map, get, put, get-put, length-put}
use consent_plugin.Logging.{suppression_key_cap, SuppressionState, unseen, allow_tracked, allow}

-- a call: its time and its key
abbrev pub Call : Type 0
Call = ℕ × String

abbrev pub Limiter : Type 0
Limiter = Map SuppressionState

unfoldable pub after : List Call → Limiter → Limiter
after [] m = m
after ((now, key) ∷ cs) m = after cs (allow now key m).1

abbrev pub count_for : String → List Call → ℕ
count_for k [] = 0
count_for k ((now, key) ∷ cs) = (if key == k then 1 else 0) + count_for k cs

-- what a call accounts for: its own line, and those that the line says were suppressed
abbrev line_count : Bool × ℕ → ℕ
line_count (true, n) = n + 1
line_count (false, n) = 0

-- what the lines written under a key account for
unfoldable pub written_for : String → List Call → Limiter → ℕ
written_for k [] m = 0
written_for k ((now, key) ∷ cs) m =
    (if key == k then line_count (allow now key m).0 else 0) + written_for k cs (allow now key m).1

-- what is suppressed and not yet told
unfoldable pub pending : String → Limiter → ℕ
pending k m = elim (get k m) [ none ↦ 0 | some s ↦ s.suppressed ]

pending-put :
    (k key : String) (s : SuppressionState) (m : Limiter)
    → pending k (put key s m) ≡ (if key == k then s.suppressed else pending k m)
unfolding pending
pending-put k key s m = ground (arith, get-put key k s m)

pending_of :
    (k : String) (m : Limiter) (s : SuppressionState)
    → get k m ≡ some s
    → pending k m ≡ s.suppressed
unfolding pending
pending_of k m s e = rw (e, pending) refl

pending-none : (k : String) (m : Limiter) → get k m ≡ none → pending k m ≡ 0
unfolding pending
pending-none k m e = rw (e, pending) refl

-- One call under the key keeps the account, and one under another key leaves it alone.
allow_tracked-account :
    (now : ℕ) (k : String) (s : SuppressionState) (m : Limiter)
    → s.suppressed + 1 < 2 ^ 64
    → line_count (allow_tracked now k s m).0 + pending k (allow_tracked now k s m).1
      ≡ 1 + s.suppressed
unfolding allow_tracked
allow_tracked-account now k s m h = ground (
  arith,
  eq_iff k k,
  pending-put k k (record s { suppressed = (s.suppressed + 1) % 2 ^ 64 }) m,
  pending-put k k (record { last_logged = some now; suppressed = 0 }) m,
)

allow_tracked-pending :
    (now : ℕ) (k key : String) (s : SuppressionState) (m : Limiter)
    → key == k ≡ false
    → pending k (allow_tracked now key s m).1 ≡ pending k m
unfolding allow_tracked
allow_tracked-pending now k key s m h = ground (
  arith,
  pending-put k key (record s { suppressed = (s.suppressed + 1) % 2 ^ 64 }) m,
  pending-put k key (record { last_logged = some now; suppressed = 0 }) m,
)

-- The three ways of a call: the key has a state, the map is full, or the key gets a state.
pub allow_known :
    (now : ℕ) (key : String) (s : SuppressionState) (m : Limiter)
    → get key m ≡ some s
    → allow now key m ≡ allow_tracked now key s m
unfolding allow
allow_known now key s m e = rw (e, allow) refl

pub allow_full :
    (now : ℕ) (key : String) (m : Limiter)
    → get key m ≡ none
    → leb suppression_key_cap (length m) ≡ true
    → allow now key m ≡ ((true, 0), m)
unfolding allow
allow_full now key m e h = rw (e, allow, h) refl

pub allow_new :
    (now : ℕ) (key : String) (m : Limiter)
    → get key m ≡ none
    → leb suppression_key_cap (length m) ≡ false
    → allow now key m ≡ allow_tracked now key unseen m
unfolding allow
allow_new now key m e h = rw (e, allow, h) refl

allow-account :
    (now : ℕ) (k : String) (m : Limiter)
    → pending k m + 1 < 2 ^ 64
    → line_count (allow now k m).0 + pending k (allow now k m).1 ≡ 1 + pending k m
allow-account now k m h = elim (Option-cases (get k m)) [
  | inr (s, e) ↦
      let p = pending_of k m s e in
      rw (allow_known now k s m e, p) (allow_tracked-account now k s m (omega (arith, p)))
  | inl e ↦
      let p = pending-none k m e in
      elim (Bool-cases (leb suppression_key_cap (length m))) [
        | inl full ↦ rw (allow_full now k m e full) (omega (arith, p))
        | inr room ↦
            rw (allow_new now k m e room, p) (allow_tracked-account now k unseen m (omega arith))
      ]
]

allow-pending :
    (now : ℕ) (k key : String) (m : Limiter)
    → key == k ≡ false
    → pending k (allow now key m).1 ≡ pending k m
allow-pending now k key m h = elim (Option-cases (get key m)) [
  | inr (s, e) ↦ rw (allow_known now key s m e) (allow_tracked-pending now k key s m h)
  | inl e ↦ elim (Bool-cases (leb suppression_key_cap (length m))) [
    | inl full ↦ rw (allow_full now key m e full) refl
    | inr room ↦ rw (allow_new now key m e room) (allow_tracked-pending now k key unseen m h)
  ]
]

-- The rate limiter loses no count: after any calls, under any keys and at any times, the lines
-- written under a key and the suppressed occurrences that they tell of, together with those not told
-- yet, are the calls under that key and what was not told before, as long as this is below 2^64.
pub written_for-accounts :
    (k : String) (cs : List Call) (m : Limiter)
    → pending k m + count_for k cs < 2 ^ 64
    → written_for k cs m + pending k (after cs m) ≡ count_for k cs + pending k m
unfolding after written_for
written_for-accounts k [] m h = refl
written_for-accounts k ((now, key) ∷ cs) m h = elim (Bool-cases (key == k)) [
  | inl e ↦
      let p : pending k m + 1 < 2 ^ 64 = ground arith in
      let q = allow-account now k m p in
      let later = written_for-accounts k cs (allow now k m).1 in
      rw ((eq_iff key k).0 e) (ground (arith, eq_iff k k))
  | inr e ↦
      let p = allow-pending now k key m e in
      let later = written_for-accounts k cs (allow now key m).1 in ground arith
]

length-allow :
    (now : ℕ) (key : String) (m : Limiter)
    → length m ≤ suppression_key_cap
    → length (allow now key m).1 ≤ suppression_key_cap
unfolding allow_tracked
length-allow now key m h = elim (Option-cases (get key m)) [
  | inr (s, e) ↦ rw (allow_known now key s m e) (
      ground (
        arith,
        length-put key (record s { suppressed = (s.suppressed + 1) % 2 ^ 64 }) m,
        length-put key (record { last_logged = some now; suppressed = 0 }) m,
      ))
  | inl e ↦ elim (Bool-cases (leb suppression_key_cap (length m))) [
    | inl full ↦ rw (allow_full now key m e full) h
    | inr room ↦
        rw (allow_new now key m e room)
          (ground (arith, length-put key (record { last_logged = some now; suppressed = 0 }) m))
  ]
]

-- However many keys are used, the limiter keeps the state of 1024 at most.
pub after-bounded :
    (cs : List Call) (m : Limiter)
    → length m ≤ suppression_key_cap
    → length (after cs m) ≤ suppression_key_cap
unfolding after
after-bounded [] m h = h
after-bounded ((now, key) ∷ cs) m h =
    after-bounded cs (allow now key m).1 (length-allow now key m h)
