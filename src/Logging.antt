-- ===== src/Logging.antt =====
-- internal/logging/logging.go: the rate limiter of the log lines, and the sanitizer of messages. The
-- levels and the runner's logger are I/O. A text is the list of its code points, and what the
-- sanitizer returns is a list of bytes, since it cuts between bytes.
pub mod Limiter
pub mod Silence
pub mod Safety
mod Examples
use Prim.Native.Char.{code}
use Prim.Native.String
use consent_plugin.Common.{
  ℕ, ◌+◌, ◌-◌, ◌*◌, ◌/◌, ◌%◌, ◌^◌, String, Bool, true, false, ◌&&◌, ◌||◌, Option, none, some, List,
  [], ◌∷◌, ◌++◌, leb, ltb, nat_eq, if◌then◌else◌, length, take,
}
use consent_plugin.Common.Map.{Map, get, put}
use consent_plugin.Common.Text.{◌<>◌, itoa}

-- suppressionInterval, in nanoseconds, and suppressionKeyCap
abbrev pub suppression_interval : ℕ
suppression_interval = 10 * 10 ^ 9

abbrev pub suppression_key_cap : ℕ
suppression_key_cap = 1024

-- `last_logged` is none for the zero time, and `suppressed` is a uint64.
pub record SuppressionState : Type 0 where
  pub last_logged : Option ℕ
  pub suppressed : ℕ

abbrev pub unseen : SuppressionState
unseen = record { last_logged = none; suppressed = 0 }

abbrev pub is_recent : ℕ → Option ℕ → Bool
is_recent now none = false
is_recent now (some last) = ltb (now - last) suppression_interval

-- `allow` for a key that has a state; with the two results, and the map that is left
unfoldable pub allow_tracked :
    ℕ → String → SuppressionState → Map SuppressionState → (Bool × ℕ) × Map SuppressionState
allow_tracked now key s m =
    if is_recent now s.last_logged
    then ((false, 0), put key (record s { suppressed = (s.suppressed + 1) % 2 ^ 64 }) m)
    else ((true, s.suppressed), put key (record { last_logged = some now; suppressed = 0 }) m)

-- `allow` at the time `now`: may the key log, and how many lines did it suppress since it last did
unfoldable pub allow : ℕ → String → Map SuppressionState → (Bool × ℕ) × Map SuppressionState
unfolding allow_tracked
allow now key m = elim (get key m) [
  | some s ↦ allow_tracked now key s m
  | none ↦
      if leb suppression_key_cap (length m) then ((true, 0), m) else allow_tracked now key unseen m
]

-- suppressedSuffix
unfoldable pub suppressed_suffix : ℕ → String
suppressed_suffix n =
    if nat_eq n 0 then "" else " (" <> itoa n <> " further occurrence(s) suppressed)"

-- DebugfEvery, WarnfEvery and ErrorfEvery: the template of the line, if there is one
unfoldable pub every :
    ℕ → String → String → Map SuppressionState → Option String × Map SuppressionState
every now key template m =
    let ((ok, n), m') = allow now key m in
    (if ok then some ("[consent-filter] " <> template <> suppressed_suffix n) else none, m')

-- the code points of a text
unfoldable pub codes : String → List ℕ
codes String.[] = []
codes (String.◌∷◌ c s) = code c ∷ codes s

-- unicode.IsControl: the category Cc
unfoldable pub is_control : ℕ → Bool
is_control c = ltb c 0x20 || (leb 0x7f c && ltb c 0xa0)

-- unicode.IsSpace: the property White_Space
unfoldable pub is_space : ℕ → Bool
is_space c =
    (leb 9 c && leb c 13)
    || (nat_eq c 0x20
        || (nat_eq c 0x85
            || (nat_eq c 0xa0
                || (nat_eq c 0x1680
                    || ((leb 0x2000 c && leb c 0x200a)
                        || (nat_eq c 0x2028
                            || (nat_eq c 0x2029
                                || (nat_eq c 0x202f || (nat_eq c 0x205f || nat_eq c 0x3000)))))))))

-- the strings.Map of Sanitize
unfoldable pub cleaned : List ℕ → List ℕ
unfolding is_control
cleaned [] = []
cleaned (c ∷ cs) = let rest = cleaned cs in if is_control c then 0x20 ∷ rest else c ∷ rest

abbrev pub add_word : List ℕ → List (List ℕ) → List (List ℕ)
add_word [] ws = ws
add_word (c ∷ w) ws = (c ∷ w) ∷ ws

-- the word in which a text starts, which may be empty, and the other words
unfoldable pub split_words : List ℕ → List ℕ × List (List ℕ)
unfolding is_space
split_words [] = ([], [])
split_words (c ∷ cs) =
    let (w, ws) = split_words cs in if is_space c then ([], add_word w ws) else (c ∷ w, ws)

-- strings.Fields
unfoldable pub fields : List ℕ → List (List ℕ)
unfolding split_words
fields l = let (w, ws) = split_words l in add_word w ws

-- strings.Join(words, " ")
unfoldable pub join_words : List (List ℕ) → List ℕ
join_words [] = []
join_words (w ∷ []) = w
join_words (w ∷ v ∷ ws) = w ++ 0x20 ∷ join_words (v ∷ ws)

-- the UTF-8 encoding of a code point, and of a text
unfoldable pub utf8_bytes : ℕ → List ℕ
utf8_bytes c =
    if ltb c 0x80
    then c ∷ []
    else if ltb c 0x800
    then (0xc0 + c / 64) ∷ (0x80 + c % 64) ∷ []
    else if ltb c 0x10000
    then (0xe0 + c / 4096) ∷ (0x80 + c / 64 % 64) ∷ (0x80 + c % 64) ∷ []
    else (0xf0 + c / 262144) ∷ (0x80 + c / 4096 % 64) ∷ (0x80 + c / 64 % 64) ∷ (0x80 + c % 64) ∷ []

unfoldable pub utf8 : List ℕ → List ℕ
unfolding utf8_bytes
utf8 [] = []
utf8 (c ∷ cs) = utf8_bytes c ++ utf8 cs

-- maxSanitizedLength and sanitizedRedaction
abbrev pub max_sanitized_length : ℕ
max_sanitized_length = 200

abbrev pub sanitized_redaction : List ℕ
sanitized_redaction =
    b'.' ∷ b'.' ∷ b'.' ∷ b'(' ∷ b'r' ∷ b'e' ∷ b'd' ∷ b'a' ∷ b'c' ∷ b't' ∷ b'e' ∷ b'd' ∷ b')' ∷ []

-- the truncation, on bytes
unfoldable pub truncated : List ℕ → List ℕ
truncated bytes =
    if ltb max_sanitized_length (length bytes)
    then take (max_sanitized_length - length sanitized_redaction) bytes ++ sanitized_redaction
    else bytes

-- Sanitize
unfoldable pub sanitize : List ℕ → List ℕ
unfolding cleaned fields join_words utf8 truncated
sanitize message = truncated (utf8 (join_words (fields (cleaned message))))
