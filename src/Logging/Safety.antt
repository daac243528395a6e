-- ===== src/Logging/Safety.antt =====
-- What a sanitized message may hold.
use consent_plugin.Common.{
  ℕ, zero, suc, ◌≤◌, ◌≡◌, ◌≢◌, refl, inl, inr, false, List, [], ◌∷◌, arith, Bool-cases, length,
  length-append, length-take, take, All, All-append, ltb,
}
use consent_plugin.Logging.{
  is_control, is_space, cleaned, add_word, split_words, fields, join_words, utf8_bytes, utf8,
  max_sanitized_length, sanitized_redaction, truncated, sanitize,
}

-- A byte of printable text: none of the ASCII control characters.
abbrev pub IsPrintable : ℕ → Type 0
IsPrintable b = (0x20 ≤ b) × (b ≢ 0x7f)

abbrev pub IsUncontrolled : ℕ → Type 0
IsUncontrolled c = is_control c ≡ false

cleaned-IsUncontrolled : (l : List ℕ) → All IsUncontrolled (cleaned l)
unfolding cleaned is_control
cleaned-IsUncontrolled [] = tt
cleaned-IsUncontrolled (c ∷ cs) = elim (Bool-cases (is_control c)) [
  | inl e ↦ rw e (refl, cleaned-IsUncontrolled cs)
  | inr e ↦ rw e (e, cleaned-IsUncontrolled cs)
]

abbrev AllWords : List (List ℕ) → Type 0
AllWords ws = All (λ w. All IsUncontrolled w) ws

add_word-All :
    (w : List ℕ) (ws : List (List ℕ))
    → All IsUncontrolled w
    → AllWords ws
    → AllWords (add_word w ws)
add_word-All [] ws h k = k
add_word-All (c ∷ w) ws h k = (h, k)

split_words-All :
    (l : List ℕ)
    → All IsUncontrolled l
    → All IsUncontrolled (split_words l).0 × AllWords (split_words l).1
unfolding split_words
split_words-All [] h = (tt, tt)
split_words-All (c ∷ cs) (h, hs) =
    let (w, ws) = split_words-All cs hs in
    elim (Bool-cases (is_space c)) [
      | inl e ↦ rw e (tt, add_word-All (split_words cs).0 (split_words cs).1 w ws)
      | inr e ↦ rw e ((h, w), ws)
    ]

join_words-All : (ws : List (List ℕ)) → AllWords ws → All IsUncontrolled (join_words ws)
unfolding join_words is_control
join_words-All [] h = tt
join_words-All (w ∷ []) (h, hs) = h
join_words-All (w ∷ v ∷ ws) (h, hs) =
    All-append IsUncontrolled w _ h (refl, join_words-All (v ∷ ws) hs)

utf8_bytes-IsPrintable : (c : ℕ) → IsUncontrolled c → All IsPrintable (utf8_bytes c)
unfolding utf8_bytes is_control
utf8_bytes-IsPrintable c h = ground arith

utf8-IsPrintable : (l : List ℕ) → All IsUncontrolled l → All IsPrintable (utf8 l)
unfolding utf8
utf8-IsPrintable [] h = tt
utf8-IsPrintable (c ∷ cs) (h, hs) =
    All-append IsPrintable (utf8_bytes c) (utf8 cs) (utf8_bytes-IsPrintable c h)
      (utf8-IsPrintable cs hs)

take-All : (P : ℕ → Type 0) (n : ℕ) (l : List ℕ) → All P l → All P (take n l)
take-All P zero l h = tt
take-All P (suc n) [] h = tt
take-All P (suc n) (c ∷ cs) (h, hs) = (h, take-All P n cs hs)

sanitized_redaction-IsPrintable : All IsPrintable sanitized_redaction
sanitized_redaction-IsPrintable = omega arith

truncated-IsPrintable : (l : List ℕ) → All IsPrintable l → All IsPrintable (truncated l)
unfolding truncated
truncated-IsPrintable l h = elim (Bool-cases (ltb max_sanitized_length (length l))) [
  | inl e ↦ rw e (
      All-append IsPrintable (take 187 l) sanitized_redaction (take-All IsPrintable 187 l h)
        sanitized_redaction-IsPrintable)
  | inr e ↦ rw e h
]

length-truncated : (l : List ℕ) → length (truncated l) ≤ max_sanitized_length
unfolding truncated
length-truncated l = elim (Bool-cases (ltb max_sanitized_length (length l))) [
  | inl e ↦ rw e (omega (arith, length-append (take 187 l) sanitized_redaction, length-take 187 l))
  | inr e ↦ rw e (ground arith)
]

-- A sanitized message is at most 200 bytes long, and holds no byte of an ASCII control character,
-- whatever text it was made from.
pub sanitize-IsPrintable :
    (message : List ℕ)
    → (length (sanitize message) ≤ max_sanitized_length) × All IsPrintable (sanitize message)
unfolding sanitize fields
sanitize-IsPrintable message =
    let (first, rest) = split_words-All (cleaned message) (cleaned-IsUncontrolled message) in
    let words = fields (cleaned message) in
    let all : AllWords words =
      add_word-All (split_words (cleaned message)).0 (split_words (cleaned message)).1 first rest in
    (
      length-truncated (utf8 (join_words words)),
      truncated-IsPrintable _ (utf8-IsPrintable (join_words words) (join_words-All words all)),
    )
