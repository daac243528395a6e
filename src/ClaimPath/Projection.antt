-- ===== src/ClaimPath/Projection.antt =====
-- The claims that the request phase keeps are enough for the response phase to find the consumer.
use mathlib.Core.Path.{subst}
use consent_plugin.Common.{
  ℕ, suc, String, ◌≡◌, ◌≢◌, ◌↔◌, ◌⊎◌, refl, sym, ◌∙◌, inl, inr, false, none, some, List, [], ◌∷◌,
  ◌++◌, arith, eq_iff, ◌==◌, Bool-cases, Option-cases, List-cases, In, any, any_iff,
  Some-append_right,
}
use consent_plugin.Common.Map.{Map, get, put, get-put}
use consent_plugin.Common.Text.{cut, split, is_char}
use consent_plugin.Failure.{Result, ok, Result-cases}
use consent_plugin.Json.{Value}
use consent_plugin.Config.{Config}
use consent_plugin.ClaimPath.{
  Node, object, parse_claim_segment, parse_indices, size, claim_of, follow_name, follow_segment,
  descend_into_object, bind, walk, non_empty, consumer_from_claims, claim_path_root,
  claim_keys_to_decode, select, requested,
}

select-stable :
    (k : String) (keys : List String) (result all : Map Value)
    → get k result ≡ get k all
    → get k (select result keys all) ≡ get k all
unfolding select
select-stable k [] result all h = h
select-stable k (j ∷ keys) result all h = elim (Option-cases (get j all)) [
  | inl e ↦ let later = select-stable k keys result all h in ground arith
  | inr (v, e) ↦
      let later = select-stable k keys (put j v result) all (elim (Bool-cases (j == k)) [
        | inl same ↦ ground (arith, get-put j k v result, eq_iff j k)
        | inr differs ↦ ground (arith, get-put j k v result)
      ]) in
      ground arith
]

-- A requested claim is kept as it is.
get-select :
    (k : String) (keys : List String) (result all : Map Value)
    → (get k result ≡ none) ⊎ (get k result ≡ get k all)
    → In k keys
    → get k (select result keys all) ≡ get k all
unfolding select
get-select k [] result all h i = absurd i
get-select k (j ∷ keys) result all h (inl here) = elim (Option-cases (get j all)) [
  | inl e ↦
      let absent : get k all ≡ none = subst (λ x. get x all ≡ none) here e in
      let later = select-stable k keys result all (ground arith) in ground arith
  | inr (v, e) ↦
      let present : get k all ≡ some v = subst (λ x. get x all ≡ some v) here e in
      let later =
        select-stable k keys (put j v result) all
          (ground (arith, get-put j k v result, eq_iff j k)) in
      ground arith
]
get-select k (j ∷ keys) result all h (inr later) = elim (Option-cases (get j all)) [
  | inl e ↦ let rest = get-select k keys result all h later in ground arith
  | inr (v, e) ↦
      let rest =
        get-select k keys (put j v result) all
          (elim (Bool-cases (j == k)) [
            | inl same ↦ inr (ground (arith, get-put j k v result, eq_iff j k))
            | inr differs ↦ ground (arith, get-put j k v result)
          ])
          later in
      ground arith
]

-- the claim name of a segment
abbrev name_of : String → String
name_of segment = elim (cut b'[' segment) [ none ↦ segment | some (name, rest) ↦ name ]

parsed-name :
    (segment name : String) (indices : List ℕ)
    → parse_claim_segment segment ≡ ok (name, indices)
    → name ≡ name_of segment
unfolding parse_claim_segment
parsed-name segment name indices h = elim (Option-cases (cut b'[' segment)) [
  | inl e ↦ ground arith
  | inr ((n, rest), e) ↦ elim (Result-cases (parse_indices (suc (size rest)) segment rest)) [
    | inl (f, k) ↦ ground arith
    | inr (l, k) ↦ ground arith
  ]
]

-- The first segment reads one claim only.
first_same :
    (path segment : String) (m m' : Map Value)
    → name_of segment ≢ ""
    → get (name_of segment) m ≡ get (name_of segment) m'
    → follow_segment path (object m) segment ≡ follow_segment path (object m') segment
unfolding follow_segment follow_name claim_of descend_into_object
first_same path segment m m' named same = elim (Result-cases (parse_claim_segment segment)) [
  | inl (f, e) ↦ ground arith
  | inr ((name, indices), e) ↦
      let is : name ≡ name_of segment = parsed-name segment name indices e in
      let same' : get name m ≡ get name m' = subst (λ x. get x m ≡ get x m') (sym is) same in
      let named' : name ≢ "" = subst (λ x. x ≢ "") (sym is) named in
      let test : (name == "") ≡ false = ground (arith, eq_iff name "") in
      elim (Option-cases (get name m')) [ inl none' ↦ ground arith | inr (v, some') ↦ ground arith ]
]

first_none :
    (path segment : String) (m : Map Value) (n : Node)
    → name_of segment ≢ ""
    → get (name_of segment) m ≡ none
    → ¬ (follow_segment path (object m) segment ≡ ok n)
unfolding follow_segment follow_name claim_of descend_into_object
first_none path segment m n named absent h = elim (Result-cases (parse_claim_segment segment)) [
  | inl (f, e) ↦ ground arith
  | inr ((name, indices), e) ↦
      let is : name ≡ name_of segment = parsed-name segment name indices e in
      let absent' : get name m ≡ none = subst (λ x. get x m ≡ none) (sym is) absent in
      let named' : name ≢ "" = subst (λ x. x ≢ "") (sym is) named in
      ground (arith, absent', e, eq_iff name "")
]

split_filled : (k : ℕ) (s : String) → split k s ≢ []
unfolding split
split_filled k String.[] e = cc
split_filled k (String.◌∷◌ ch s) e = elim (Bool-cases (is_char k ch)) [
  | inl sep ↦ ground arith
  | inr other ↦ elim (List-cases (split k s)) [
    | inl empty ↦ ground arith
    | inr (t, ts, filled) ↦ ground arith
  ]
]

-- the walk of the whole path, and the test at its end
abbrev reached : String → Map Value → Result String
reached path m = bind (walk path (split b'.' path) (object m)) (non_empty path)

reached_same :
    (path : String) (m m' : Map Value)
    → claim_path_root path ≢ ""
    → get (claim_path_root path) m ≡ get (claim_path_root path) m'
    → reached path m ≡ reached path m'
unfolding claim_path_root walk
reached_same path m m' rooted same = elim (List-cases (split b'.' path)) [
  | inl e ↦ absurd (split_filled b'.' path e)
  | inr (segment, rest, e) ↦
      let is : claim_path_root path ≡ name_of segment = ground arith in
      let first =
        first_same path segment m m' (subst (λ x. x ≢ "") is rooted)
          (subst (λ x. get x m ≡ get x m') is same) in
      ground arith
]

reached-none :
    (path consumer : String) (m : Map Value)
    → claim_path_root path ≢ ""
    → get (claim_path_root path) m ≡ none
    → ¬ (reached path m ≡ ok consumer)
unfolding claim_path_root walk
reached-none path consumer m rooted absent h = elim (List-cases (split b'.' path)) [
  | inl e ↦ absurd (split_filled b'.' path e)
  | inr (segment, rest, e) ↦
      let is : claim_path_root path ≡ name_of segment = ground arith in
      elim (Result-cases (follow_segment path (object m) segment)) [
        | inl (f, k) ↦ ground arith
        | inr (n, k) ↦ absurd (
            first_none path segment m n (subst (λ x. x ≢ "") is rooted)
              (subst (λ x. get x m ≡ none) is absent) k)
      ]
]

consumer-reached :
    (path consumer : String) (m : Map Value)
    → path ≢ ""
    → claim_path_root path ≢ ""
    → (consumer_from_claims m path ≡ ok consumer) ↔ (reached path m ≡ ok consumer)
unfolding consumer_from_claims get
consumer-reached path consumer [] given rooted =
    (λ h. ground (arith, eq_iff path ""), λ h. absurd (reached-none path consumer [] rooted refl h))
consumer-reached path consumer (e ∷ m) given rooted =
    (λ h. ground (arith, eq_iff path ""), λ h. ground (arith, eq_iff path ""))

keys-In :
    (cfg : Config)
    → cfg.consumer_claim ≢ ""
    → (claim_keys_to_decode cfg ≡ [])
      ⊎ In (claim_path_root cfg.consumer_claim) (claim_keys_to_decode cfg)
unfolding claim_keys_to_decode
keys-In cfg given = elim (List-cases cfg.jwt_claims_to_forward) [
  | inl e ↦ inl (ground arith)
  | inr (k, ks, e) ↦
      let root = claim_path_root cfg.consumer_claim in
      let found =
        any_iff (λ key. key == root) (λ key. key ≡ root) (λ key. eq_iff key root) (k ∷ ks) in
      elim (Bool-cases (any (λ key. key == root) (k ∷ ks))) [
        | inl there ↦
            let same : claim_keys_to_decode cfg ≡ k ∷ ks =
              ground (arith, eq_iff cfg.consumer_claim "") in
            inr (subst (In root) (sym same) (found.0 there))
        | inr missing ↦
            let same : claim_keys_to_decode cfg ≡ (k ∷ ks) ++ root ∷ [] =
              ground (arith, eq_iff cfg.consumer_claim "") in
            inr (
              subst (In root) (sym same)
                (Some-append_right (λ x. x ≡ root) (k ∷ ks) (root ∷ []) (inl refl)))
      ]
]

-- Keeping only the claims that the request phase asks for, the configured ones and the root of the
-- consumer's path, loses nothing that the response phase needs: it finds the same consumer as in
-- the whole token, and none where the token has none, if the path starts with a claim's name.
pub consumer-requested :
    (cfg : Config) (all : Map Value) (consumer : String)
    → cfg.consumer_claim ≢ ""
    → claim_path_root cfg.consumer_claim ≢ ""
    → (consumer_from_claims (requested (claim_keys_to_decode cfg) all) cfg.consumer_claim
        ≡ ok consumer)
      ↔ (consumer_from_claims all cfg.consumer_claim ≡ ok consumer)
unfolding requested get
consumer-requested cfg all consumer given rooted =
    let path = cfg.consumer_claim in
    let root = claim_path_root cfg.consumer_claim in
    let keys = claim_keys_to_decode cfg in
    let kept : get root (requested keys all) ≡ get root all = elim (List-cases keys) [
      | inl e ↦ ground arith
      | inr (k, ks, e) ↦
          let same : requested keys all ≡ select [] keys all = ground arith in
          elim (keys-In cfg given) [
            | inl none' ↦ ground arith
            | inr here ↦ rw same (get-select root keys [] all (inl refl) here)
          ]
    ] in
    let equal = reached_same path (requested keys all) all rooted kept in
    let (there, back) = consumer-reached path consumer (requested keys all) given rooted in
    let (there', back') = consumer-reached path consumer all given rooted in
    (λ h. back' (sym equal ∙ there h), λ h. back (equal ∙ there' h))
