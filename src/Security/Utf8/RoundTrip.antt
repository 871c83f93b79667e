-- ===== src/Security/Utf8/RoundTrip.antt =====
-- The bytes of a text tell the text.
use Prim.Native.Nat.{ℕ, ◌+◌, ◌-◌, ◌*◌}
use flowtona.Common.{
  ◌≡◌, refl, Text, true, Option, none, some, List, [], ◌∷◌, ◌++◌, arith, inl, inr, Result-cases, ok,
  ltb, if◌then◌else◌,
}
use flowtona.Security.Utf8.{is_encodable, bytes_of_char, encode}

-- The first character of a row of bytes, and the bytes after it.
abbrev two : ℕ → List ℕ → Option (ℕ × List ℕ)
two a (b ∷ r) = some ((a - 0xc0) * 64 + (b - 0x80), r)
two a _ = none

abbrev three : ℕ → List ℕ → Option (ℕ × List ℕ)
three a (b ∷ c ∷ r) = some ((a - 0xe0) * 4096 + (b - 0x80) * 64 + (c - 0x80), r)
three a _ = none

abbrev four : ℕ → List ℕ → Option (ℕ × List ℕ)
four a (b ∷ c ∷ d ∷ r) =
    some ((a - 0xf0) * 262144 + (b - 0x80) * 4096 + (c - 0x80) * 64 + (d - 0x80), r)
four a _ = none

abbrev first_char : List ℕ → Option (ℕ × List ℕ)
first_char [] = none
first_char (a ∷ r) =
    if ltb a 0x80
    then some (a, r)
    else if ltb a 0xe0
    then two a r
    else if ltb a 0xf0
    then three a r
    else four a r

first_char-bytes_of_char :
    (c : ℕ) (rest : List ℕ)
    → is_encodable c ≡ true
    → first_char (bytes_of_char c ++ rest) ≡ some (c, rest)
unfolding bytes_of_char is_encodable
first_char-bytes_of_char c rest valid = ground arith

encode-cons :
    (c : ℕ) (s : Text) (b : List ℕ)
    → encode (c ∷ s) ≡ ok b
    → (r : List ℕ) × (encode s ≡ ok r) × (b ≡ bytes_of_char c ++ r) × (is_encodable c ≡ true)
unfolding encode
encode-cons c s b run = elim (Result-cases (encode s)) [
  | inl (e, failed) ↦ absurd (ground arith)
  | inr (r, done) ↦ (r, done, ground arith, ground arith)
]

first_char-encode :
    (c : ℕ) (s : Text) (b : List ℕ)
    → encode (c ∷ s) ≡ ok b
    → (r : List ℕ) × (encode s ≡ ok r) × (first_char b ≡ some (c, r))
first_char-encode c s b run =
    let (r, done, whole, valid) = encode-cons c s b run in
    (r, done, rw whole (first_char-bytes_of_char c r valid))

-- Two texts with the same bytes are the same.
pub encode_injective : (s t : Text) (b : List ℕ) → encode s ≡ ok b → encode t ≡ ok b → s ≡ t
unfolding encode
encode_injective [] [] b p q = refl
encode_injective [] (d ∷ t) b p q =
    let (r, done, f) = first_char-encode d t b q in absurd (ground arith)
encode_injective (c ∷ s) [] b p q =
    let (r, done, f) = first_char-encode c s b p in absurd (ground arith)
encode_injective (c ∷ s) (d ∷ t) b p q =
    let (r, done, f) = first_char-encode c s b p in
    let (r', done', f') = first_char-encode d t b q in
    let same : encode t ≡ ok r = ground (arith, done') in
    ground (arith, encode_injective s t r done same)
