-- ===== src/Common/Int.antt =====
-- Go's signed integers: `negsuc n` is -(n + 1). An int64 product is wrapped by `wrap64`.
use Prim.Native.Nat.{ℕ, suc, ◌-◌, ◌*◌, ◌%◌, ◌^◌}
use Prim.Native.String.{String}
use mathlib.Core.Bool.{Bool, true, false}
use mathlib.Core.Option.{Option, none, some}
use mathlib.Core.Path.{◌≡◌, refl}
use consent_plugin.Common.Tests.{ltb, leb, if◌then◌else◌}
use consent_plugin.Common.Text.{is_char, digits}

pub data ℤ : Type 0 where
  pos : ℕ → ℤ
  negsuc : ℕ → ℤ

abbrev pub pos_part : ℤ → ℕ
pos_part (pos n) = n
pos_part (negsuc n) = 0

-- a < b and a ≤ b
abbrev pub ltb_ℤ : ℤ → ℤ → Bool
ltb_ℤ (pos a) (pos b) = ltb a b
ltb_ℤ (pos a) (negsuc b) = false
ltb_ℤ (negsuc a) (pos b) = true
ltb_ℤ (negsuc a) (negsuc b) = ltb b a

abbrev pub neg : ℕ → ℤ
neg n = if leb n 0 then pos 0 else negsuc (n - 1)

-- the int64 of a residue modulo 2 ^ 64
abbrev pub signed64 : ℕ → ℤ
signed64 r = if ltb r (2 ^ 63) then pos r else negsuc (2 ^ 64 - 1 - r)

-- the int64 product of `a` and a positive constant
unfoldable pub times64 : ℤ → ℕ → ℤ
times64 (pos a) k = signed64 (a * k % 2 ^ 64)
times64 (negsuc a) k = signed64 (2 ^ 64 - 1 - (suc a * k - 1) % 2 ^ 64)

abbrev nonneg : Option ℕ → Option ℤ
nonneg none = none
nonneg (some n) = if ltb n (2 ^ 63) then some (pos n) else none

abbrev negated : Option ℕ → Option ℤ
negated none = none
negated (some n) = if leb n (2 ^ 63) then some (neg n) else none

-- strconv.Atoi, and ParseInt in base 10: an optional sign, digits, and the range of an int64
unfoldable pub atoi : String → Option ℤ
atoi String.[] = none
atoi (String.◌∷◌ c s) =
    if is_char b'-' c
    then negated (digits s)
    else if is_char b'+' c
    then nonneg (digits s)
    else nonneg (digits (String.◌∷◌ c s))

atoi_runs : atoi "-12" ≡ some (negsuc 11)
unfolding atoi digits
atoi_runs = refl
