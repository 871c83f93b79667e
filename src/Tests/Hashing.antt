-- ===== src/Tests/Hashing.antt =====
-- Tokens and their hashes, at "abc" and "abd" and at four bytes.
use Prim.Native.Nat.{ℕ, zero, suc, ◌+◌, ◌*◌, ◌/◌, ◌%◌}
use flowtona.Common.{◌≡◌, ◌↔◌, ◌⊎◌, refl, arith, Text, List, [], ◌∷◌, ok, length}
use flowtona.Security.Sha256.{sha256}
use flowtona.Security.Hex.{hex, AreHexDigits}
use flowtona.Security.Base64.RoundTrip.{decode, AreUrlSafe}
use flowtona.Security.Hashing.{hash_token, generate_secure_token, default_length_bytes}
use flowtona.Security.Hashing.Tokens.{
  Collide, hash_token_total, hash_token_iff, generate_secure_token_lem,
}

abbrev pub abc : Text
abc = 97 ∷ 98 ∷ 99 ∷ []

abbrev pub abd : Text
abd = 97 ∷ 98 ∷ 100 ∷ []

abbrev pub abc_hash : Text
abc_hash = hex (sha256 abc)

abbrev pub abd_hash : Text
abd_hash = hex (sha256 abd)

-- The first test vector of FIPS 180-4.
sha256-abc :
    sha256 abc
    ≡ 0xba ∷ 0x78 ∷ 0x16 ∷ 0xbf ∷ 0x8f ∷ 0x01 ∷ 0xcf ∷ 0xea ∷ 0x41 ∷ 0x41 ∷ 0x40 ∷ 0xde ∷ 0x5d
      ∷ 0xae ∷ 0x22 ∷ 0x23 ∷ 0xb0 ∷ 0x03 ∷ 0x61 ∷ 0xa3 ∷ 0x96 ∷ 0x17 ∷ 0x7a ∷ 0x9c ∷ 0xb4 ∷ 0x10
      ∷ 0xff ∷ 0x61 ∷ 0xf2 ∷ 0x00 ∷ 0x15 ∷ 0xad ∷ []
unfolding sha256
sha256-abc = refl

pub hash_abc : hash_token abc ≡ ok abc_hash
unfolding hash_token flowtona.Security.Utf8.encode
hash_abc = refl

pub hash_abd : hash_token abd ≡ ok abd_hash
unfolding hash_token flowtona.Security.Utf8.encode
hash_abd = refl

hash_token_total_example : (h : Text) × (hash_token abc ≡ ok h) × (length h ≡ 64) × AreHexDigits h
unfolding flowtona.Security.Utf8.is_encodable
hash_token_total_example = hash_token_total abc (refl, (refl, (refl, tt)))

hash_token_iff_example : (abc_hash ≡ abd_hash) ↔ ((abc ≡ abd) ⊎ Collide abc abd)
hash_token_iff_example = hash_token_iff abc abd abc_hash abd_hash hash_abc hash_abd

-- A row of different bytes, in place of random ones.
abbrev drawn : ℕ → List ℕ
drawn zero = []
drawn (suc n) = (251 * n % 256) ∷ drawn n

generate_secure_token_lem_example :
    let token = generate_secure_token drawn 4 in
    (decode token ≡ drawn 4)
    × (length token ≡ (4 * 4 + 2) / 3)
    × AreUrlSafe token
    × ((h : Text) × (hash_token token ≡ ok h) × (length h ≡ 64) × AreHexDigits h)
generate_secure_token_lem_example = generate_secure_token_lem drawn 4 (omega arith) refl

-- A token of the default size has 43 characters.
default_length : length (generate_secure_token drawn default_length_bytes) ≡ 43
default_length = (generate_secure_token_lem drawn default_length_bytes (omega arith) refl).1
