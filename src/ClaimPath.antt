-- ===== src/ClaimPath.antt =====
-- internal/plugin/consent.go, the claim path that names the consumer, and internal/jwt/extractor.go,
-- the claims that a token carries.
pub mod Projection
pub mod Fuel
pub mod Examples
use consent_plugin.Common.{
  ℕ, zero, suc, String, Bool, true, false, not, Option, none, some, List, [], ◌∷◌, ◌++◌, ◌==◌, ◌||◌,
  ltb, nat_eq, if◌then◌else◌, length, get_elem?, any,
}
use consent_plugin.Common.Int.{ℤ, pos, negsuc, atoi}
use consent_plugin.Common.Map.{Map, get, put}
use consent_plugin.Common.Text.{◌<>◌, cut, split, itoa, is_char}
use consent_plugin.Failure.{Failure, Result, ok, err, plain, wrap}
use consent_plugin.Json.{Value, str, arr, obj, items, to_map}
use consent_plugin.Config.{Config}
use consent_plugin.Runtime.{Bytes}
use Prim.Native.Char.{code}
use Prim.Native.String

-- a value under the walk: the claims, or what a step reached
pub data Node : Type 0 where
  object : Map Value → Node
  array : List Value → Node
  leaf : String → Node
  scalar : Node

abbrev pub node_of : Value → Node
node_of (obj ms) = object (to_map ms)
node_of (arr vs) = array (items vs)
node_of (str s) = leaf s
node_of _ = scalar

abbrev only_object : Node → Option (Map Value)
only_object (object m) = some m
only_object _ = none

-- descendIntoObject
unfoldable pub descend_into_object : Node → Option (Map Value)
descend_into_object (array []) = none
descend_into_object (array (v ∷ vs)) = only_object (node_of v)
descend_into_object (object m) = some m
descend_into_object _ = none

abbrev segment_error : String → String → Failure
segment_error segment text = plain ("claim path segment \"" <> segment <> "\": " <> text)

abbrev pub with_index : ℕ → Result (List ℕ) → Result (List ℕ)
with_index n (ok rest) = ok (n ∷ rest)
with_index n (err f) = err f

-- the end of a round: the text after "]" is empty, or starts another index
unfoldable pub after_index : (String → Result (List ℕ)) → String → ℕ → String → Result (List ℕ)
after_index next segment n String.[] = ok (n ∷ [])
after_index next segment n (String.◌∷◌ c rest) =
    if is_char b'[' c
    then with_index n (next rest)
    else err (segment_error segment "unexpected text after an index")

abbrev pub with_digits :
    (String → Result (List ℕ)) → String → Option (String × String) → Result (List ℕ)
with_digits next segment none = err (segment_error segment "unterminated [")
with_digits next segment (some (digits, remainder)) = elim (atoi digits) [
  | some (pos n) ↦ after_index next segment n remainder
  | _ ↦ err (segment_error segment (digits <> " is not an array index"))
]

-- the loop of parseClaimSegment over the text after "[", which every round shortens
unfoldable pub parse_indices : ℕ → String → String → Result (List ℕ)
unfolding after_index
parse_indices zero segment rest = err (segment_error segment "too many indices")
parse_indices (suc fuel) segment rest =
    if rest == ""
    then ok []
    else with_digits (λ text. parse_indices fuel segment text) segment (cut b']' rest)

unfoldable pub size : String → ℕ
size String.[] = 0
size (String.◌∷◌ c s) = suc (size s)

abbrev pub named : String → Result (List ℕ) → Result (String × List ℕ)
named name (ok indices) = ok (name, indices)
named name (err f) = err f

-- parseClaimSegment
unfoldable pub parse_claim_segment : String → Result (String × List ℕ)
parse_claim_segment segment = elim (cut b'[' segment) [
  | none ↦ ok (segment, [])
  | some (name, rest) ↦ named name (parse_indices (suc (size rest)) segment rest)
]

abbrev path_error : String → String → Failure
path_error path text = plain ("claim path \"" <> path <> "\": " <> text)

-- the inner loop of consumerFromClaims
unfoldable pub follow_indices : String → String → List ℕ → Node → Result Node
follow_indices path name [] node = ok node
follow_indices path name (i ∷ rest) (array vs) = elim (get_elem? vs i) [
  | none ↦ err (
      path_error path
        ("index " <> itoa i <> " is out of range (" <> itoa (length vs) <> " element(s))"))
  | some v ↦ follow_indices path name rest (node_of v)
]
follow_indices path name (i ∷ rest) _ = err (path_error path (name <> " is not an array"))

-- the named claim of an object
unfoldable pub claim_of : String → String → Map Value → Result Node
claim_of path name m = elim (get name m) [
  | none ↦ err (path_error path ("no claim " <> name))
  | some v ↦ ok (node_of v)
]

unfoldable pub follow_name : String → String → String → Node → Result Node
unfolding claim_of descend_into_object
follow_name path segment name node =
    if name == "" then ok node else elim (descend_into_object node) [
      | none ↦ err (path_error path (segment <> " is not an object"))
      | some m ↦ claim_of path name m
    ]

abbrev pub bind : {A B : Type 0} → Result A → (A → Result B) → Result B
bind (err f) k = err f
bind (ok a) k = k a

-- one segment of the path
unfoldable pub follow_segment : String → Node → String → Result Node
follow_segment path node segment = bind (parse_claim_segment segment) (λ (name, indices).
    bind (follow_name path segment name node) (follow_indices path name indices))

unfoldable pub walk : String → List String → Node → Result Node
unfolding follow_segment
walk path [] node = ok node
walk path (segment ∷ rest) node = bind (follow_segment path node segment) (walk path rest)

abbrev pub non_empty : String → Node → Result String
non_empty path (leaf s) =
    if s == "" then err (path_error path "did not resolve to a non-empty string") else ok s
non_empty path _ = err (path_error path "did not resolve to a non-empty string")

-- consumerFromClaims; the messages are without the quotes that %q puts around a name
unfoldable pub consumer_from_claims : Map Value → String → Result String
unfolding walk
consumer_from_claims claims path =
    if path == "" then err (plain "consumer_claim is not configured") else elim claims [
      | [] ↦ err (plain "no claims decoded from the token")
      | c ∷ cs ↦ bind (walk path (split b'.' path) (object (c ∷ cs))) (non_empty path)
    ]

abbrev head_or : String → List String → String
head_or default [] = default
head_or default (s ∷ rest) = s

-- claimPathRoot
unfoldable pub claim_path_root : String → String
claim_path_root path =
    let root = head_or "" (split b'.' path) in
    elim (cut b'[' root) [ none ↦ root | some (name, rest) ↦ name ]

-- claimKeysToDecode
unfoldable pub claim_keys_to_decode : Config → List String
unfolding claim_path_root
claim_keys_to_decode cfg = elim cfg.jwt_claims_to_forward [
  | [] ↦ []
  | k ∷ ks ↦
      let root = claim_path_root cfg.consumer_claim in
      if (cfg.consumer_claim == "") || any (λ key. key == root) (k ∷ ks)
      then k ∷ ks
      else (k ∷ ks) ++ root ∷ []
]

-- the loop of DecodeClaims
unfoldable pub select : Map Value → List String → Map Value → Map Value
select result [] all = result
select result (key ∷ keys) all = elim (get key all) [
  | none ↦ select result keys all
  | some v ↦ select (put key v result) keys all
]

-- what DecodeClaims returns of all the claims
unfoldable pub requested : List String → Map Value → Map Value
unfolding select
requested [] all = all
requested (key ∷ keys) all = select [] (key ∷ keys) all
