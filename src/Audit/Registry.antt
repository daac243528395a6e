-- ===== src/Audit/Registry.antt =====
-- internal/audit/audit.go: the emitters of the process, by the key of their configuration.
use consent_plugin.Common.{ℕ, ◌+◌, ◌%◌, ◌^◌, String, true, Option, none, some, List, [], ◌∷◌}
use consent_plugin.Common.Arrangement.{TextSorter}
use consent_plugin.Common.Int.{ℤ}
use consent_plugin.Common.Join.{nul_text}
use consent_plugin.Common.Map.{Map, get, put}
use consent_plugin.Common.Text.{join}
use consent_plugin.Audit.{AuditConfig, service_name_of, Emitter, new_emitter}

abbrev pub keys_of {ℓ} : {V : Type ℓ} → Map V → List String
keys_of [] = []
keys_of ((k, v) ∷ m) = k ∷ keys_of m

-- m[k], which is "" where k is missing
abbrev pub or_empty : Option String → String
or_empty none = ""
or_empty (some v) = v

abbrev pub value_of : String → Map String → String
value_of k m = or_empty (get k m)

abbrev pub header_parts : List String → Map String → List String
header_parts [] m = []
header_parts (n ∷ ns) m = n ∷ value_of n m ∷ header_parts ns m

-- sort.Strings and Duration.String are parameters.
module _ (t : TextSorter) (show_duration : ℤ → String) where
  -- sortedKeys
  abbrev pub sorted_keys : Map String → List String
  sorted_keys m = t.sort (keys_of m)

  abbrev pub key_parts : AuditConfig → List String
  key_parts cfg =
      cfg.endpoint
      ∷ service_name_of cfg
      ∷ show_duration cfg.timeout
      ∷ header_parts (sorted_keys cfg.headers) cfg.headers

  -- Config.key
  unfoldable pub key : AuditConfig → String
  key cfg = join nul_text (key_parts cfg)

  -- Get
  unfoldable pub get_emitter : AuditConfig → Map Emitter → Emitter × Map Emitter
  unfolding key
  get_emitter cfg emitters = elim (get (key cfg) emitters) [
    | some e ↦ (e, emitters)
    | none ↦ (new_emitter cfg, put (key cfg) (new_emitter cfg) emitters)
  ]

-- the closing of `done` of each emitter
unfoldable pub close_all : Map Emitter → List Emitter
close_all [] = []
close_all ((k, e) ∷ rest) = record e { done = true } ∷ close_all rest

-- ShutdownAll: the emitters that it ends, and the emitters that are left
unfoldable pub shutdown_all : Map Emitter → List Emitter × Map Emitter
unfolding close_all
shutdown_all emitters = (close_all emitters, [])

-- Dropped, over the emitters
unfoldable pub dropped : Map Emitter → ℕ
dropped [] = 0
dropped ((k, e) ∷ rest) = (e.dropped + dropped rest) % 2 ^ 64
