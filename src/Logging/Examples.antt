-- ===== src/Logging/Examples.antt =====
-- A repeated failure, and an error page.
use consent_plugin.Common.{
  ℕ, ◌+◌, ◌*◌, ◌^◌, ◌≤◌, ◌<◌, ◌≡◌, refl, List, true, none, some, ◌++◌, [], ◌∷◌, arith, length, All,
}
use consent_plugin.Common.Map.{get, put}
use consent_plugin.Common.Text.{itoa}
use consent_plugin.Logging.{
  max_sanitized_length, allow, every, is_control, is_space, sanitize, suppressed_suffix,
}
use consent_plugin.Logging.Safety.{sanitize-IsPrintable, IsPrintable}
use consent_plugin.Logging.Limiter.{
  Call, after, count_for, written_for, pending, written_for-accounts,
}
use consent_plugin.Logging.Silence.{line_then_silence}

abbrev second : ℕ
second = 10 ^ 9

abbrev failures : List Call
failures =
    (1, "export")
    ∷ (2 + second, "export")
    ∷ (3 + second, "status")
    ∷ (4 + 11 * second, "export")
    ∷ []

silenced_once : (every 7 "export" "failed" (after failures [])).0 ≡ none
unfolding every allow after get put
silenced_once = refl

-- four occurrences, of which the last line tells of the two before it
suffix_shown :
    (every
      (40 * second)
      "export"
      "failed"
      (after (failures ++ (6 + 11 * second, "export") ∷ []) [])).0
    ≡ some "[consent-filter] failed (1 further occurrence(s) suppressed)"
unfolding every allow after get put itoa suppressed_suffix
suffix_shown = refl

page_sanitized : sanitize (0x3c ∷ 0x0a ∷ 0x20 ∷ 0xe9 ∷ []) ≡ 0x3c ∷ 0x20 ∷ 0xc3 ∷ 0xa9 ∷ []
unfolding sanitize is_control is_space
page_sanitized = refl

sanitize-IsPrintable_example :
    (length (sanitize (0x3c ∷ 0x0a ∷ 0xe9 ∷ [])) ≤ max_sanitized_length)
    × All IsPrintable (sanitize (0x3c ∷ 0x0a ∷ 0xe9 ∷ []))
sanitize-IsPrintable_example = sanitize-IsPrintable (0x3c ∷ 0x0a ∷ 0xe9 ∷ [])

abbrev fits : pending "export" [] + count_for "export" failures < 2 ^ 64
unfolding pending count_for get
fits = omega arith

written_for-accounts_example :
    written_for "export" failures [] + pending "export" (after failures [])
    ≡ count_for "export" failures + pending "export" []
written_for-accounts_example = written_for-accounts "export" failures [] fits

first_line : (allow 1 "export" []).0.0 ≡ true
unfolding allow get
first_line = refl

line_then_silence_example :
    written_for "export"
      ((2 + second, "export") ∷ (3 + second, "status") ∷ [])
      (allow 1 "export" []).1
    ≡ 0
line_then_silence_example =
    line_then_silence 1 "export" [] ((2 + second, "export") ∷ (3 + second, "status") ∷ [])
      (omega arith) first_line (omega arith)
