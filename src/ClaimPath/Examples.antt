-- ===== src/ClaimPath/Examples.antt =====
-- Claim paths at concrete tokens.
use consent_plugin.Common.{ℕ, List, none, some, ◌⊎◌, String, ◌≡◌, ◌≢◌, refl, [], ◌∷◌}
use consent_plugin.Common.Int.{atoi}
use consent_plugin.Common.Map.{Map, get, put}
use consent_plugin.Common.Text.{split, cut, digits, digits_from}
use consent_plugin.Failure.{Result, ok}
use consent_plugin.Json.{Value, str, arr, obj, nil, cons, end, member, items, to_map, add_members}
use consent_plugin.Config.{Config}
use consent_plugin.Config.Examples.{given}
use consent_plugin.ClaimPath.{
  parse_claim_segment, parse_indices, after_index, size, follow_segment, follow_name, claim_of,
  follow_indices, descend_into_object, walk, consumer_from_claims, claim_path_root, named,
}
use consent_plugin.ClaimPath.Fuel.{Rounds, parse_claim_segment-ends}

abbrev pub carol : Value
carol = obj (member "issuer" (str "did:carol") end)

-- a credential in an array, beside another claim
abbrev pub token : Map Value
token = ("sub", str "alice") ∷ ("verifiableCredential", arr (cons carol nil)) ∷ []

abbrev config : Config
config = record given {
  consumer_claim = "verifiableCredential[0].issuer";
  jwt_claims_to_forward = "email" ∷ [];
}

root : claim_path_root "verifiableCredential[0].issuer" ≡ "verifiableCredential"
unfolding claim_path_root split cut
root = refl

-- An index may be left out: then it is the first.
first_element : consumer_from_claims token "verifiableCredential.issuer" ≡ ok "did:carol"
unfolding consumer_from_claims walk follow_segment follow_name follow_indices claim_of
    descend_into_object parse_claim_segment split cut get items to_map add_members put
first_element = refl

indexed : consumer_from_claims token "verifiableCredential[0].issuer" ≡ ok "did:carol"
unfolding consumer_from_claims walk follow_segment follow_name follow_indices claim_of
    descend_into_object parse_claim_segment parse_indices after_index size split cut get items
    to_map add_members put atoi digits digits_from
indexed = refl

-- A bracket that nothing follows is taken for none.
open_bracket : parse_claim_segment "issuer[" ≡ ok ("issuer", [])
unfolding parse_claim_segment parse_indices size cut
open_bracket = refl

path_given : ◌≢◌ {A = String} "verifiableCredential[0].issuer" ""
path_given e = cc

root_given : claim_path_root "verifiableCredential[0].issuer" ≢ ""
root_given = rw root credential
  where
    credential : ◌≢◌ {A = String} "verifiableCredential" ""
    credential e = cc

parse_claim_segment-ends_example :
    ((cut b'[' "s[0]" ≡ none) × (parse_claim_segment "s[0]" ≡ ok ("s[0]", [])))
    ⊎ ((name : String) × (rest : String) × (r : Result (List ℕ)) × (cut b'[' "s[0]"
          ≡ some (name, rest))
        × Rounds rest r
        × (parse_claim_segment "s[0]" ≡ named name r))
parse_claim_segment-ends_example = parse_claim_segment-ends "s[0]"
