-- ===== src/Json/Decode.antt =====
-- encoding/json's decoding of a value into Go variables, as far as the program relies on it: `null`
-- changes nothing, an object's members are taken in order and each goes to the field whose name it
-- has up to case, a member that names no field is skipped, and a value of another kind is an error
-- (`none`; json.Unmarshal goes on decoding, but its callers then discard what it decoded).
-- Not modelled: an array that is given twice for one field reuses the elements of the first.
use Prim.Native.Char.{code}
use consent_plugin.Common.{
  ℕ, ◌-◌, String, Bool, true, false, ◌&&◌, Option, none, some, List, [], ◌∷◌, leb, nat_eq,
  if◌then◌else◌,
}
use consent_plugin.Common.Int.{ℤ, atoi}
use consent_plugin.Json.{Value, null, bool, num, str, arr, obj, Items, Members, end, member}

infixl 10 ◌>>=◌
abbrev pub ◌>>=◌ {ℓ κ} : {A : Type ℓ} {B : Type κ} → Option A → (A → Option B) → Option B
none >>= k = none
some a >>= k = k a

-- Unicode simple folding, on the characters that fold to an ASCII letter: the letters themselves,
-- the long s and the Kelvin sign.
unfoldable pub fold_code : ℕ → ℕ
fold_code c =
    if leb b'a' c && leb c b'z'
    then c - 32
    else if nat_eq c 0x17f
    then b'S'
    else if nat_eq c 0x212a
    then b'K'
    else c

-- The member `key` goes to the field `name`.
unfoldable pub names_field : String → String → Bool
unfolding fold_code
names_field String.[] String.[] = true
names_field (String.◌∷◌ a s) (String.◌∷◌ b t) =
    nat_eq (fold_code (code a)) (fold_code (code b)) && names_field s t
names_field _ _ = false

-- into a string that holds `old`
unfoldable pub into_string : String → Value → Option String
into_string old (str s) = some s
into_string old null = some old
into_string old _ = none

unfoldable pub into_bool : Bool → Value → Option Bool
into_bool old (bool b) = some b
into_bool old null = some old
into_bool old _ = none

-- into an int, or an int64: the literal has to be an integer in range
unfoldable pub into_int : ℤ → Value → Option ℤ
unfolding atoi
into_int old (num literal) = atoi literal
into_int old null = some old
into_int old _ = none

module _ {A : Type 0} where
  unfoldable pub into_items : (Value → Option A) → Items → Option (List A)
  into_items decode Items.nil = some []
  into_items decode (Items.cons v vs) = do
    a ← decode v
    rest ← into_items decode vs
    some (a ∷ rest)

  -- into a slice; each element starts from the zero value, which `decode` knows
  unfoldable pub into_slice : (Value → Option A) → List A → Value → Option (List A)
  unfolding into_items
  into_slice decode old (arr vs) = into_items decode vs
  into_slice decode old null = some []
  into_slice decode old _ = none

  unfoldable pub into_members : (String → Value → A → Option A) → A → Members → Option A
  into_members set a end = some a
  into_members set a (member k v ms) = do a' ← set k v a; into_members set a' ms

  -- into a struct that holds `a`; `set` stores one member
  unfoldable pub into_struct : (String → Value → A → Option A) → A → Value → Option A
  unfolding into_members
  into_struct set a (obj ms) = into_members set a ms
  into_struct set a null = some a
  into_struct set a _ = none
