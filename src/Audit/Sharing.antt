-- ===== src/Audit/Sharing.antt =====
-- The emitter that a configuration gets, whatever the emitters did before.
use mathlib.Core.Path.{subst}
use consent_plugin.Common.{
  zero, suc, ◌≢◌, ◌⊎◌, String, ap, ◌≡◌, refl, sym, ◌∙◌, inl, inr, true, false, none, some, List, [],
  arith, ◌==◌, eq_iff, if◌then◌else◌, Bool-cases, Option-cases, All,
}
use consent_plugin.Common.Arrangement.{TextSorter}
use consent_plugin.Common.Int.{ℤ, pos, negsuc, ltb_ℤ}
use consent_plugin.Common.Text.{◌<>◌, trim_right, has_suffix}
use consent_plugin.Common.Join.{NoNul}
use consent_plugin.Common.Map.{Map, get, put, get-put}
use consent_plugin.Audit.{
  AuditConfig, default_timeout, logs_endpoint, Emitter, new_emitter, Move, run, service_name_of,
}
use consent_plugin.Audit.Constancy.{run-Unchanged}
use consent_plugin.Audit.Registry.{key_parts, key, get_emitter, shutdown_all}
use consent_plugin.Audit.Keys.{SameSettings, SameSettings-of-key}

-- The address asked for: the configured one without slashes at its end, completed by "/v1/logs"
-- unless it ends so.
abbrev pub IsEndpoint : String → String → Type 0
IsEndpoint configured used =
    let base = trim_right b'/' configured in
    (has_suffix "/v1/logs" base ≡ true) × (used ≡ base)
    ⊎ (has_suffix "/v1/logs" base ≡ false) × (used ≡ base <> "/v1/logs")

-- The name asked for, or "consent-access-audit" where there is none.
abbrev pub IsServiceName : String → String → Type 0
IsServiceName configured used =
    (configured ≢ "") × (used ≡ configured) ⊎ (configured ≡ "") × (used ≡ "consent-access-audit")

-- The nanoseconds asked for, or five seconds where they are not positive.
abbrev pub IsTimeout : ℤ → ℤ → Type 0
IsTimeout (pos zero) used = used ≡ pos 5_000_000_000
IsTimeout (pos (suc n)) used = used ≡ pos (suc n)
IsTimeout (negsuc n) used = used ≡ pos 5_000_000_000

-- The emitter exports where and as the configuration says.
pub record Serves (cfg : AuditConfig) (e : Emitter) : Type 0 where
  pub endpoint : IsEndpoint cfg.endpoint e.endpoint
  pub service_name : IsServiceName cfg.service_name e.service_name
  pub timeout : IsTimeout cfg.timeout e.timeout
  pub headers : (k : String) → get k e.headers ≡ get k cfg.headers

new-IsEndpoint :
    (configured : String) → IsEndpoint configured (logs_endpoint (trim_right b'/' configured))
new-IsEndpoint configured = elim (Bool-cases (has_suffix "/v1/logs" (trim_right b'/' configured))) [
  | inl h ↦ inl (h, rw h refl)
  | inr h ↦ inr (h, rw h refl)
]

new-IsServiceName : (cfg : AuditConfig) → IsServiceName cfg.service_name (service_name_of cfg)
unfolding service_name_of
new-IsServiceName cfg = elim (Bool-cases (cfg.service_name == "")) [
  | inl h ↦ inr ((eq_iff cfg.service_name "").0 h, rw h refl)
  | inr h ↦ inl (λ e. ground (arith, eq_iff cfg.service_name ""), rw h refl)
]

service_name_unique :
    (cfg : AuditConfig) (used : String)
    → IsServiceName cfg.service_name used
    → used ≡ service_name_of cfg
unfolding service_name_of
service_name_unique cfg used (inl (given, e)) = ground (arith, eq_iff cfg.service_name "")
service_name_unique cfg used (inr (absent, e)) = ground (arith, eq_iff cfg.service_name "")

new-IsTimeout :
    (timeout : ℤ) → IsTimeout timeout (if ltb_ℤ (pos 0) timeout then timeout else default_timeout)
new-IsTimeout (pos zero) = refl
new-IsTimeout (pos (suc n)) = ground arith
new-IsTimeout (negsuc n) = refl

module _ (t : TextSorter) (show_duration : ℤ → String) where
  -- what happens to the emitters of the process: a call of Get for a configuration without a NUL, the
  -- moves of one of them, and ShutdownAll
  pub data Change : Map Emitter → Map Emitter → Type 0 where
    gets :
        (cfg : AuditConfig) (m : Map Emitter)
        → All NoNul (key_parts t show_duration cfg)
        → Change m ((get_emitter t show_duration cfg m).1)
    moves :
        (k : String) (e e' : Emitter) (mvs : List Move) (m : Map Emitter)
        → get k m ≡ some e
        → run mvs e ≡ some e'
        → Change m (put k e' m)
    ends : (m : Map Emitter) → Change m ((shutdown_all m).1)

  pub data Reached : Map Emitter → Type 0 where
    start : Reached []
    next : {m m' : Map Emitter} → Reached m → Change m m' → Reached m'

  -- Each emitter serves a configuration of its key.
  abbrev IsShared : Map Emitter → Type 0
  IsShared m =
      (k : String) (e : Emitter)
      → get k m ≡ some e
      → (cfg : AuditConfig) × All NoNul (key_parts t show_duration cfg)
        × (key t show_duration cfg ≡ k)
        × Serves cfg e

  new_emitter-Serves : (cfg : AuditConfig) → Serves cfg (new_emitter cfg)
  unfolding new_emitter
  new_emitter-Serves cfg = record {
    endpoint = new-IsEndpoint cfg.endpoint;
    service_name = new-IsServiceName cfg;
    timeout = new-IsTimeout cfg.timeout;
    headers = λ k. refl;
  }

  put-IsShared :
      (k : String) (cfg : AuditConfig) (e : Emitter) (m : Map Emitter)
      → All NoNul (key_parts t show_duration cfg)
      → key t show_duration cfg ≡ k
      → Serves cfg e
      → IsShared m
      → IsShared (put k e m)
  put-IsShared k cfg e m p q s shared j x h = elim (Bool-cases (k == j)) [
    | inl same ↦
        let here : e ≡ x = ground (arith, get-put k j e m) in
        (cfg, p, q ∙ (eq_iff k j).0 same, subst (Serves cfg) here s)
    | inr other ↦ shared j x (ground (arith, get-put k j e m))
  ]

  pub got_known :
      (cfg : AuditConfig) (m : Map Emitter) (e : Emitter)
      → get (key t show_duration cfg) m ≡ some e
      → get_emitter t show_duration cfg m ≡ (e, m)
  unfolding get_emitter
  got_known cfg m e h = rw (h, get_emitter) refl

  got_new :
      (cfg : AuditConfig) (m : Map Emitter)
      → get (key t show_duration cfg) m ≡ none
      → get_emitter t show_duration cfg m
        ≡ (new_emitter cfg, put (key t show_duration cfg) (new_emitter cfg) m)
  unfolding get_emitter
  got_new cfg m h = rw (h, get_emitter) refl

  Change-IsShared : {m m' : Map Emitter} → Change m m' → IsShared m → IsShared m'
  unfolding shutdown_all get
  Change-IsShared (gets cfg m p) shared = elim (Option-cases (get (key t show_duration cfg) m)) [
    | inr (e, h) ↦ subst IsShared (sym (ap (λ r. r.1) (got_known cfg m e h))) shared
    | inl h ↦ subst IsShared (sym (ap (λ r. r.1) (got_new cfg m h))) (
        put-IsShared (key t show_duration cfg) cfg (new_emitter cfg) m p refl
          (new_emitter-Serves cfg) shared)
  ]
  Change-IsShared (moves k e e' mvs m found r) shared =
      let (cfg, p, q, s) = shared k e found in
      let u = run-Unchanged mvs e e' r in
      put-IsShared k cfg e' m p q
        (record {
          endpoint = subst (IsEndpoint cfg.endpoint) (sym u.endpoint) s.endpoint;
          service_name = subst (IsServiceName cfg.service_name) (sym u.service_name) s.service_name;
          timeout = subst (IsTimeout cfg.timeout) (sym u.timeout) s.timeout;
          headers = λ j. ap (get j) u.headers ∙ s.headers j;
        })
        shared
  Change-IsShared (ends m) shared = λ k e h. cc

  Reached-IsShared : {m : Map Emitter} → Reached m → IsShared m
  unfolding get
  Reached-IsShared start = λ k e h. cc
  Reached-IsShared (next r c) = Change-IsShared c (Reached-IsShared r)

  Serves-of-SameSettings :
      (c d : AuditConfig) (e : Emitter) → SameSettings c d → Serves c e → Serves d e
  Serves-of-SameSettings c d e same s = record {
    endpoint = subst (λ x. IsEndpoint x e.endpoint) same.endpoint s.endpoint;
    service_name =
        subst (IsServiceName d.service_name)
          (sym (service_name_unique c e.service_name s.service_name ∙ same.service_name))
          (new-IsServiceName d);
    timeout = subst (λ x. IsTimeout x e.timeout) same.timeout s.timeout;
    headers = λ k. s.headers k ∙ same.headers k;
  }

  -- Whatever emitters were created, used and ended before, Get returns one for what its configuration
  -- asks for: its address is the configured one without slashes at its end, completed by "/v1/logs"
  -- unless it ends so; its service name, its timeout and its headers are the configured ones, with the
  -- defaults for an empty name and for a timeout that is not positive. It holds where durations are
  -- printed exactly and the parts of the keys hold no NUL.
  pub get_emitter-Serves :
      (cfg : AuditConfig) (m : Map Emitter)
      → ((a b : ℤ) → show_duration a ≡ show_duration b → a ≡ b)
      → All NoNul (key_parts t show_duration cfg)
      → Reached m
      → Serves cfg ((get_emitter t show_duration cfg m).0)
  get_emitter-Serves cfg m exact p reached = elim (Option-cases (get (key t show_duration cfg) m)) [
    | inr (e, h) ↦
        let (c, q, same, s) = Reached-IsShared reached (key t show_duration cfg) e h in
        rw (got_known cfg m e h) (
          Serves-of-SameSettings c cfg e (SameSettings-of-key t show_duration c cfg exact q p same)
            s)
    | inl h ↦ rw (got_new cfg m h) (new_emitter-Serves cfg)
  ]
