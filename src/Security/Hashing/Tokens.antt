-- ===== src/Security/Hashing/Tokens.antt =====
-- What the hash of a token tells of the token.
use Prim.Native.Nat.{ℕ, ◌+◌, ◌*◌, ◌/◌}
use flowtona.Common.{
  ◌≡◌, ◌≢◌, refl, sym, ap, ◌∙◌, Text, true, List, [], ◌∷◌, ◌++◌, arith, inl, inr, ◌⊎◌, ◌↔◌,
  Bool-cases, ◌==◌, ==_iff, nat_eq, list_eq, Result-cases, ok, length,
}
use flowtona.Security.Utf8.{encode, is_encodable, bytes_of_char}
use flowtona.Security.Utf8.RoundTrip.{encode_injective}
use flowtona.Security.Words.{bytes_of, words_of}
use flowtona.Security.Sha256.{sha256, digest_of, Chain, absorb, pad, initial}
use flowtona.Security.Hex.{hex, hex_injective, length-hex, hex-AreHexDigits, AreBytes, AreHexDigits}
use flowtona.Security.Base64.{token_urlsafe}
use flowtona.Security.Base64.RoundTrip.{decode, AreUrlSafe, token_urlsafe_lem}
use flowtona.Security.Hashing.{hash_token, generate_secure_token}

AreBytes-append : (xs ys : List ℕ) → AreBytes xs → AreBytes ys → AreBytes (xs ++ ys)
AreBytes-append [] ys p q = q
AreBytes-append (x ∷ xs) ys (p, ps) q = (p, AreBytes-append xs ys ps q)

bytes_of-AreBytes : (w : ℕ) → AreBytes (bytes_of w)
unfolding bytes_of
bytes_of-AreBytes w = omega arith

length-bytes_of : (w : ℕ) → length (bytes_of w) ≡ 4
unfolding bytes_of
length-bytes_of w = refl

module _ (s : Chain) where
  digest_of-AreBytes : AreBytes (digest_of s)
  unfolding digest_of bytes_of
  digest_of-AreBytes = omega arith

  length-digest_of : length (digest_of s) ≡ 32
  unfolding digest_of bytes_of
  length-digest_of = refl

sha256_lem : (m : List ℕ) → AreBytes (sha256 m) × (length (sha256 m) ≡ 32)
unfolding sha256
sha256_lem m =
    let s = absorb (words_of (pad m)) initial in (digest_of-AreBytes s, length-digest_of s)

hashed :
    (t h : Text) → hash_token t ≡ ok h → (m : List ℕ) × (encode t ≡ ok m) × (h ≡ hex (sha256 m))
unfolding hash_token
hashed t h run = elim (Result-cases (encode t)) [
  | inl (e, failed) ↦ absurd (ground arith)
  | inr (m, done) ↦ (m, done, ground arith)
]

abbrev pub AreEncodable : Text → Type 0
AreEncodable [] = Unit
AreEncodable (c ∷ text) = (is_encodable c ≡ true) × AreEncodable text

encode_total : (t : Text) → AreEncodable t → (m : List ℕ) × (encode t ≡ ok m)
unfolding encode
encode_total [] p = ([], refl)
encode_total (c ∷ t) (p, ps) =
    let (m, done) = encode_total t ps in (bytes_of_char c ++ m, ground arith)

-- A text without surrogates has a hash, which is 64 hexadecimal digits in lower case.
pub hash_token_total :
    (t : Text)
    → AreEncodable t
    → (h : Text) × (hash_token t ≡ ok h) × (length h ≡ 64) × AreHexDigits h
unfolding hash_token
hash_token_total t p =
    let (m, done) = encode_total t p in
    let (bytes, size) = sha256_lem m in
    (
      hex (sha256 m),
      ground arith,
      omega (arith, length-hex (sha256 m), size),
      hex-AreHexDigits (sha256 m) bytes,
    )

AreUrlSafe-AreEncodable : (t : Text) → AreUrlSafe t → AreEncodable t
unfolding is_encodable
AreUrlSafe-AreEncodable [] p = tt
AreUrlSafe-AreEncodable (c ∷ t) (p, ps) = (ground arith, AreUrlSafe-AreEncodable t ps)

-- If the system draws as many bytes as it is asked for, the secure token of them decodes to them, has one character for each six bits, needs no escape in a URL, and has a hash of 64 hexadecimal digits.
pub generate_secure_token_lem :
    (random : ℕ → List ℕ) (n : ℕ)
    → AreBytes (random n)
    → length (random n) ≡ n
    → let token = generate_secure_token random n in
      (decode token ≡ random n)
      × (length token ≡ (4 * n + 2) / 3)
      × AreUrlSafe token
      × ((h : Text) × (hash_token token ≡ ok h) × (length h ≡ 64) × AreHexDigits h)
unfolding generate_secure_token
generate_secure_token_lem random n bytes size =
    let (back, long, safe) = token_urlsafe_lem (random n) bytes in
    (
      back,
      long ∙ ap (λ (k : ℕ). (4 * k + 2) / 3) size,
      safe,
      hash_token_total (token_urlsafe (random n)) (AreUrlSafe-AreEncodable _ safe),
    )

-- Two texts whose messages SHA-256 does not tell apart.
abbrev pub Collide : Text → Text → Type 0
Collide t u =
    (m : List ℕ) × (n : List ℕ) × (encode t ≡ ok m)
    × (encode u ≡ ok n)
    × (m ≢ n)
    × (sha256 m ≡ sha256 n)

same_hash : (t u h : Text) → hash_token t ≡ ok h → hash_token u ≡ ok h → (t ≡ u) ⊎ Collide t u
same_hash t u h run run' =
    let (m, done, made) = hashed t h run in
    let (n, done', made') = hashed u h run' in
    elim (Bool-cases (m == n)) [
      | inl same ↦ inl (encode_injective t u m done (ground (arith, done', ==_iff m n)))
      | inr other ↦ inr (
        m,
        n,
        done,
        done',
        λ same. absurd (ground (arith, ==_iff m n)),
        hex_injective (sha256 m) (sha256 n) (sha256_lem m).0 (sha256_lem n).0 (sym made ∙ made'),
      )
    ]

-- Two tokens have the same hash exactly if they are the same token, or their messages are different and SHA-256 has the same digest for both.
pub hash_token_iff :
    (t u h k : Text) → hash_token t ≡ ok h → hash_token u ≡ ok k → (h ≡ k) ↔ ((t ≡ u) ⊎ Collide t u)
hash_token_iff t u h k run run' = (
  λ same. same_hash t u h run (run' ∙ ap (λ x. ok x) (sym same)),
  λ how. elim how [
    | inl same ↦ ground arith
    | inr (m, n, done, done', differ, digest) ↦
        let (m', first, made) = hashed t h run in
        let (n', second, made') = hashed u k run' in ground arith
  ],
)
