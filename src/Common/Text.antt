-- ===== src/Common/Text.antt =====
-- The functions of Go's `strings` and `strconv` that the program calls, over the native `String`.
-- `s <> t` is Go's `s + t`, and `is_char k` tests a character against a code point.
use Prim.Native.Char.{Char, code}
use Prim.Native.Nat.{ℕ, zero, suc, ◌+◌, ◌*◌, ◌-◌, ◌/◌, ◌%◌}
use Prim.Native.String.{String}
use mathlib.Core.Bool.{Bool, true, false, ◌&&◌}
use mathlib.Core.List.{List, [], ◌∷◌}
use mathlib.Core.Option.{Option, none, some}
use consent_plugin.Common.Tests.{nat_eq, ltb, leb, if◌then◌else◌}
use text.Mathlib.Text.{◌==◌}
use Prim.Native.String

infixr 65 ◌<>◌
abbrev pub ◌<>◌ : String → String → String
s <> t = String.◌++◌ s t

abbrev digit_char : ℕ → Char
digit_char d =
    if nat_eq d 0
    then "0"
    else if nat_eq d 1
    then "1"
    else if nat_eq d 2
    then "2"
    else if nat_eq d 3
    then "3"
    else if nat_eq d 4
    then "4"
    else if nat_eq d 5
    then "5"
    else if nat_eq d 6
    then "6"
    else if nat_eq d 7
    then "7"
    else if nat_eq d 8
    then "8"
    else "9"

abbrev pub is_char : ℕ → Char → Bool
is_char k c = nat_eq (code c) k

-- strings.TrimRight(s, cutset) for a cutset of one character
unfoldable pub trim_right : ℕ → String → String
trim_right k String.[] = ""
trim_right k (String.◌∷◌ c s) =
    let rest = trim_right k s in if (rest == "") && is_char k c then "" else String.◌∷◌ c rest

-- strings.HasPrefix(s, prefix) for a prefix of one character
unfoldable pub has_prefix_char : ℕ → String → Bool
has_prefix_char k String.[] = false
has_prefix_char k (String.◌∷◌ c s) = is_char k c

-- strings.Join(parts, sep)
unfoldable pub join : String → List String → String
join sep [] = ""
join sep (s ∷ []) = s
join sep (s ∷ t ∷ rest) = s <> sep <> join sep (t ∷ rest)

abbrev push_head : Char → List String → List String
push_head c [] = String.◌∷◌ c "" ∷ []
push_head c (s ∷ rest) = String.◌∷◌ c s ∷ rest

-- strings.Split(s, sep) for a separator of one character: never empty
unfoldable pub split : ℕ → String → List String
split k String.[] = "" ∷ []
split k (String.◌∷◌ c s) =
    let rest = split k s in if is_char k c then "" ∷ rest else push_head c rest

abbrev push_before : Char → Option (String × String) → Option (String × String)
push_before c none = none
push_before c (some (before, after)) = some (String.◌∷◌ c before, after)

-- strings.Cut(s, sep) for a separator of one character; none if it is not found
unfoldable pub cut : ℕ → String → Option (String × String)
cut k String.[] = none
cut k (String.◌∷◌ c s) =
    let rest = cut k s in if is_char k c then some ("", s) else push_before c rest

-- a run of decimal digits, read after the number `n`
unfoldable pub digits_from : ℕ → String → Option ℕ
digits_from n String.[] = some n
digits_from n (String.◌∷◌ c s) =
    let rest = digits_from (n * 10 + (code c - b'0')) s in
    if leb b'0' (code c) && leb (code c) b'9' then rest else none

-- one digit at least
unfoldable pub digits : String → Option ℕ
unfolding digits_from
digits s = if s == "" then none else digits_from 0 s

-- `n` in decimal, for n < 10 ^ fuel
decimal : ℕ → ℕ → String → String
decimal zero n acc = acc
decimal (suc fuel) n acc =
    let shown = String.◌∷◌ (digit_char (n % 10)) acc in
    let more = decimal fuel (n / 10) shown in if ltb n 10 then shown else more

-- strconv.Itoa of a number that is not negative; an `int` has 19 digits at most
unfoldable pub itoa : ℕ → String
unfolding decimal
itoa n = decimal 20 n ""

-- strings.TrimPrefix where strings.HasPrefix holds; none where it does not
unfoldable pub strip_prefix : String → String → Option String
strip_prefix String.[] s = some s
strip_prefix (String.◌∷◌ p ps) String.[] = none
strip_prefix (String.◌∷◌ p ps) (String.◌∷◌ c s) =
    if nat_eq (code p) (code c) then strip_prefix ps s else none

-- strings.HasPrefix
unfoldable pub has_prefix : String → String → Bool
unfolding strip_prefix
has_prefix prefix s = elim (strip_prefix prefix s) [ none ↦ false | some rest ↦ true ]

-- strings.HasSuffix
unfoldable pub has_suffix : String → String → Bool
has_suffix suffix String.[] = "" == suffix
has_suffix suffix (String.◌∷◌ c s) =
    let later = has_suffix suffix s in if String.◌∷◌ c s == suffix then true else later

-- len(s): the bytes of its UTF-8 encoding
unfoldable pub byte_length : String → ℕ
byte_length String.[] = 0
byte_length (String.◌∷◌ c s) =
    let rest = byte_length s in
    if ltb (code c) 0x80
    then 1 + rest
    else if ltb (code c) 0x800
    then 2 + rest
    else if ltb (code c) 0x10000
    then 3 + rest
    else 4 + rest
