-- ===== src/Filter/Owners/Termination.antt =====
-- The goroutines of `checkOwners` end: none waits for ever, and there are finitely many moves.
use mathlib.Core.Option.{some-injective}
use consent_plugin.Common.{
  ℕ, zero, suc, ◌+◌, ◌<◌, String, ◌≡◌, ◌⊎◌, refl, inl, inr, Bool, true, false, some, List, [], ◌∷◌,
  arith, get_elem?, All,
}
use consent_plugin.Failure.{Failure, Result, ok, err, is_canceled}
use consent_plugin.Context.{RequestContext}
use consent_plugin.Consent.{ConsentRequest, ConsentResponse}
use consent_plugin.Filter.{OwnerClaim}
use consent_plugin.Filter.Owners.{
  Task, waiting, running, skipped, answered, Checks, start, in_flight, set_task, request_for, Step,
  enter, finish, Run,
}
use consent_plugin.Filter.Owners.Progress.{AllPossible, Run-IsReachable, was_cancelled, one_taken}
use consent_plugin.Filter.Owners.Reduction.{IsSettled}

-- the moves that the goroutines have left, at most
unfoldable pub moves_left : List Task → ℕ
moves_left [] = 0
moves_left (waiting ∷ rest) = 2 + moves_left rest
moves_left (running ∷ rest) = 1 + moves_left rest
moves_left (_ ∷ rest) = moves_left rest

moves_left_cons :
    (t : Task) (ts : List Task) → moves_left (t ∷ ts) ≡ moves_left (t ∷ []) + moves_left ts
unfolding moves_left
moves_left_cons waiting ts = omega arith
moves_left_cons running ts = omega arith
moves_left_cons skipped ts = omega arith
moves_left_cons (answered r) ts = omega arith

moves_left-set :
    (i : ℕ) (t u : Task) (ts : List Task)
    → get_elem? ts i ≡ some u
    → moves_left (set_task i t ts) + moves_left (u ∷ []) ≡ moves_left ts + moves_left (t ∷ [])
moves_left-set i t u [] e = ground arith
moves_left-set zero t u (v ∷ ts) e =
    let same : v ≡ u = some-injective _ _ e in
    rw same (ground (arith, moves_left_cons t ts, moves_left_cons u ts))
moves_left-set (suc i) t u (v ∷ ts) e =
    ground
      (arith, moves_left-set i t u ts e, moves_left_cons v ts, moves_left_cons v (set_task i t ts))

-- Settled tasks, a running one, or a waiting one that finds every slot free.
Movable : List Task → Type 0
Movable ts =
    All IsSettled ts
    ⊎ ((i : ℕ) × (get_elem? ts i ≡ some running))
    ⊎ ((i : ℕ) × (get_elem? ts i ≡ some waiting) × (in_flight ts ≡ 0))

movable : (ts : List Task) → Movable ts
unfolding Movable in_flight
movable [] = inl tt
movable (running ∷ ts) = inr (inl (0, refl))
movable (waiting ∷ ts) = elim (movable ts) [
  | inl settled ↦ inr (inr (0, refl, settled_none ts settled))
  | inr (inl (i, e)) ↦ inr (inl (suc i, e))
  | inr (inr (i, e, z)) ↦ inr (inr (suc i, e, z))
]
  where
    settled_none : (ts : List Task) → All IsSettled ts → in_flight ts ≡ 0
    settled_none [] h = refl
    settled_none (waiting ∷ ts) (h, hs) = absurd h
    settled_none (running ∷ ts) (h, hs) = absurd h
    settled_none (skipped ∷ ts) (h, hs) = settled_none ts hs
    settled_none (answered r ∷ ts) (h, hs) = settled_none ts hs
movable (skipped ∷ ts) = elim (movable ts) [
  | inl settled ↦ inl (tt, settled)
  | inr (inl (i, e)) ↦ inr (inl (suc i, e))
  | inr (inr (i, e, z)) ↦ inr (inr (suc i, e, z))
]
movable (answered r ∷ ts) = elim (movable ts) [
  | inl settled ↦ inl (tt, settled)
  | inr (inl (i, e)) ↦ inr (inl (suc i, e))
  | inr (inr (i, e, z)) ↦ inr (inr (suc i, e, z))
]

one_move : (t : Task) → t ≡ running → moves_left (t ∷ []) ≡ 1
unfolding moves_left
one_move t e = rw e refl

two_moves : moves_left (waiting ∷ []) ≡ 2
unfolding moves_left
two_moves = refl

no_move : (r : Result ConsentResponse) → moves_left (answered r ∷ []) ≡ 0
unfolding moves_left
no_move r = refl

module _ (answers : ConsentRequest → Result ConsentResponse → Type 0) (ctx : RequestContext)
    (consumer : String) where
  claim_at :
      (stopped : Bool) (i : ℕ) (t : Task) (cs : List OwnerClaim) (ts : List Task)
      → AllPossible answers ctx consumer stopped cs ts
      → get_elem? ts i ≡ some t
      → (c : OwnerClaim) × (get_elem? cs i ≡ some c)
  claim_at stopped i t [] [] p e = ground arith
  claim_at stopped i t [] (u ∷ ts) p e = absurd p
  claim_at stopped i t (c ∷ cs) [] p e = absurd p
  claim_at stopped zero t (c ∷ cs) (u ∷ ts) (p, ps) e = (c, refl)
  claim_at stopped (suc i) t (c ∷ cs) (u ∷ ts) (p, ps) e = claim_at stopped i t cs ts ps e

  -- No deadlock: if CheckConsent may return to every request something other than a cancellation,
  -- then in every state that can be reached either all goroutines have returned, or one of them
  -- can move, which leaves fewer moves.
  pub checks-end :
      (claims : List OwnerClaim) (s : Checks)
      → ((req : ConsentRequest)
          → (r : Result ConsentResponse) × answers req r × (was_cancelled r ≡ false))
      → Run answers ctx consumer claims (start claims) s
      → All IsSettled s.tasks
        ⊎ ((s' : Checks) × Step answers ctx consumer claims s s'
            × (moves_left s'.tasks < moves_left s.tasks))
  unfolding Movable
  checks-end claims s returns run = elim (movable s.tasks) [
    | inl settled ↦ inl settled
    | inr (inl (i, e)) ↦
        let v = Run-IsReachable answers ctx consumer claims run in
        let (c, placed) = claim_at _ i running claims s.tasks v.possible e in
        let (n, taken) = one_taken answers ctx consumer claims i v e in
        let (r, a, own) = returns (request_for ctx consumer c) in
        inr (
          _,
          finish i c r n e taken placed a (λ f same k. not_own r own f same k),
          omega (
            arith,
            moves_left-set i (answered r) running s.tasks e,
            one_move running refl,
            no_move r,
          ),
        )
    | inr (inr (i, e, free)) ↦ inr (
      _,
      enter i e (omega (arith, free, (Run-IsReachable answers ctx consumer claims run).counted)),
      omega (arith, moves_left-set i running waiting s.tasks e, one_move running refl, two_moves),
    )
  ]
    where
      not_own :
          (r : Result ConsentResponse)
          → was_cancelled r ≡ false
          → (f : Failure) → r ≡ err f
          → is_canceled f ≡ true
          → s.cancelled ≡ true
      not_own (ok resp) own f e k = cc
      not_own (err g) own f e k = ground arith
