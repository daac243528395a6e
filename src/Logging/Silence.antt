-- ===== src/Logging/Silence.antt =====
-- The ten seconds after a line.
use consent_plugin.Common.{
  ℕ, ◌+◌, ◌%◌, ◌^◌, ◌<◌, ◌≡◌, refl, inl, inr, String, true, false, some, List, [], ◌∷◌, arith, ◌==◌,
  eq_iff, leb, length, All, Bool-cases, Option-cases,
}
use consent_plugin.Common.Map.{get, get-put}
use consent_plugin.Logging.{
  suppression_interval, suppression_key_cap, SuppressionState, unseen, is_recent, allow_tracked,
  allow,
}
use consent_plugin.Logging.Limiter.{Call, Limiter, written_for, allow_known, allow_full, allow_new}

-- A key that wrote a line at `start` has a state, unless the map was full.
abbrev pub IsSilenced : ℕ → String → Limiter → Type 0
IsSilenced start k m =
    (n : ℕ) × (get k m ≡ some (record { last_logged = some start; suppressed = n }))

abbrev pub AllWithin : ℕ → List Call → Type 0
AllWithin start cs = All (λ (c : Call). c.0 < start + suppression_interval) cs

tracked-IsSilenced :
    (now start : ℕ) (k key : String) (s : SuppressionState) (m : Limiter)
    → key == k ≡ false
    → IsSilenced start k m
    → IsSilenced start k (allow_tracked now key s m).1
unfolding allow_tracked
tracked-IsSilenced now start k key s m h (n, e) = (
  n,
  ground (
    arith,
    get-put key k (record s { suppressed = (s.suppressed + 1) % 2 ^ 64 }) m,
    get-put key k (record { last_logged = some now; suppressed = 0 }) m,
  ),
)

other-IsSilenced :
    (now start : ℕ) (k key : String) (m : Limiter)
    → key == k ≡ false
    → IsSilenced start k m
    → IsSilenced start k (allow now key m).1
other-IsSilenced now start k key m h silent = elim (Option-cases (get key m)) [
  | inr (s, e) ↦ rw (allow_known now key s m e) (tracked-IsSilenced now start k key s m h silent)
  | inl e ↦ elim (Bool-cases (leb suppression_key_cap (length m))) [
    | inl full ↦ rw (allow_full now key m e full) silent
    | inr room ↦
        rw (allow_new now key m e room) (tracked-IsSilenced now start k key unseen m h silent)
  ]
]

own_silenced :
    (now start : ℕ) (k : String) (m : Limiter)
    → now < start + suppression_interval
    → (silent : IsSilenced start k m)
    → ((allow now k m).0 ≡ (false, 0))
      × (get k (allow now k m).1
          ≡ some (record { last_logged = some start; suppressed = (silent.0 + 1) % 2 ^ 64 }))
unfolding allow_tracked
own_silenced now start k m h (n, e) = rw (allow_known now k _ m e) (
    ground (
      arith,
      eq_iff k k,
      get-put k k (record { last_logged = some start; suppressed = (n + 1) % 2 ^ 64 }) m,
    ))

silenced_written :
    (start : ℕ) (k : String) (cs : List Call) (m : Limiter)
    → AllWithin start cs
    → IsSilenced start k m
    → written_for k cs m ≡ 0
unfolding written_for
silenced_written start k [] m h silent = refl
silenced_written start k ((now, key) ∷ cs) m (h, hs) silent = elim (Bool-cases (key == k)) [
  | inr other ↦
      let later =
        silenced_written start k cs (allow now key m).1 hs
          (other-IsSilenced now start k key m other silent) in
      rw other (omega (arith, later))
  | inl same ↦
      let (quiet, kept) = own_silenced now start k m h silent in
      let later =
        silenced_written start k cs (allow now k m).1 hs ((silent.0 + 1) % 2 ^ 64, kept) in
      rw ((eq_iff key k).0 same, quiet) (ground (arith, later))
]

tracked_line-IsSilenced :
    (now : ℕ) (k : String) (s : SuppressionState) (m : Limiter)
    → (allow_tracked now k s m).0.0 ≡ true
    → IsSilenced now k (allow_tracked now k s m).1
unfolding allow_tracked
tracked_line-IsSilenced now k s m h = elim (Bool-cases (is_recent now s.last_logged)) [
  | inl e ↦ ground arith
  | inr e ↦ (
    0,
    ground (arith, eq_iff k k, get-put k k (record { last_logged = some now; suppressed = 0 }) m),
  )
]

line-IsSilenced :
    (now : ℕ) (k : String) (m : Limiter)
    → length m < suppression_key_cap
    → (allow now k m).0.0 ≡ true
    → IsSilenced now k (allow now k m).1
line-IsSilenced now k m room h = elim (Option-cases (get k m)) [
  | inr (s, e) ↦
      let a = allow_known now k s m e in rw a (tracked_line-IsSilenced now k s m (rw a at h))
  | inl e ↦
      let a = allow_new now k m e (ground arith) in
      rw a (tracked_line-IsSilenced now k unseen m (rw a at h))
]

-- While the map of keys has room, a line that is written under a key is the last one under it for ten
-- seconds: none of the calls that follow writes one as long as they come before the ten seconds are
-- over, whatever calls under other keys come between.
pub line_then_silence :
    (now : ℕ) (k : String) (m : Limiter) (cs : List Call)
    → length m < suppression_key_cap
    → (allow now k m).0.0 ≡ true
    → AllWithin now cs
    → written_for k cs (allow now k m).1 ≡ 0
line_then_silence now k m cs room h within =
    silenced_written now k cs (allow now k m).1 within (line-IsSilenced now k m room h)
