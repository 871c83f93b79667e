-- ===== src/Security/Sha256.antt =====
-- SHA-256 (FIPS 180-4), which `hashlib.sha256` computes, over bytes.
use Prim.Native.Nat.{ℕ, zero, suc, ◌-◌, ◌*◌, ◌/◌, ◌%◌, ◌^◌, bit_and, bit_xor}
use flowtona.Common.{List, [], ◌∷◌, ◌++◌, length}
use flowtona.Security.Words.{add32, not32, rotate_right, shift_right, bytes_of, words_of}

-- The eight working words.
pub record Chain : Type 0 where
  pub a : ℕ
  pub b : ℕ
  pub c : ℕ
  pub d : ℕ
  pub e : ℕ
  pub f : ℕ
  pub g : ℕ
  pub h : ℕ

abbrev pub initial : Chain
initial = record {
  a = 0x6a09e667;
  b = 0xbb67ae85;
  c = 0x3c6ef372;
  d = 0xa54ff53a;
  e = 0x510e527f;
  f = 0x9b05688c;
  g = 0x1f83d9ab;
  h = 0x5be0cd19;
}

abbrev pub round_constants : List ℕ
round_constants =
    0x428a2f98 ∷ 0x71374491 ∷ 0xb5c0fbcf ∷ 0xe9b5dba5 ∷ 0x3956c25b ∷ 0x59f111f1 ∷ 0x923f82a4
    ∷ 0xab1c5ed5 ∷ 0xd807aa98 ∷ 0x12835b01 ∷ 0x243185be ∷ 0x550c7dc3 ∷ 0x72be5d74 ∷ 0x80deb1fe
    ∷ 0x9bdc06a7 ∷ 0xc19bf174 ∷ 0xe49b69c1 ∷ 0xefbe4786 ∷ 0x0fc19dc6 ∷ 0x240ca1cc ∷ 0x2de92c6f
    ∷ 0x4a7484aa ∷ 0x5cb0a9dc ∷ 0x76f988da ∷ 0x983e5152 ∷ 0xa831c66d ∷ 0xb00327c8 ∷ 0xbf597fc7
    ∷ 0xc6e00bf3 ∷ 0xd5a79147 ∷ 0x06ca6351 ∷ 0x14292967 ∷ 0x27b70a85 ∷ 0x2e1b2138 ∷ 0x4d2c6dfc
    ∷ 0x53380d13 ∷ 0x650a7354 ∷ 0x766a0abb ∷ 0x81c2c92e ∷ 0x92722c85 ∷ 0xa2bfe8a1 ∷ 0xa81a664b
    ∷ 0xc24b8b70 ∷ 0xc76c51a3 ∷ 0xd192e819 ∷ 0xd6990624 ∷ 0xf40e3585 ∷ 0x106aa070 ∷ 0x19a4c116
    ∷ 0x1e376c08 ∷ 0x2748774c ∷ 0x34b0bcb5 ∷ 0x391c0cb3 ∷ 0x4ed8aa4a ∷ 0x5b9cca4f ∷ 0x682e6ff3
    ∷ 0x748f82ee ∷ 0x78a5636f ∷ 0x84c87814 ∷ 0x8cc70208 ∷ 0x90befffa ∷ 0xa4506ceb ∷ 0xbef9a3f7
    ∷ 0xc67178f2 ∷ []

choose : ℕ → ℕ → ℕ → ℕ
unfolding not32
choose x y z = bit_xor (bit_and x y) (bit_and (not32 x) z)

majority : ℕ → ℕ → ℕ → ℕ
majority x y z = bit_xor (bit_xor (bit_and x y) (bit_and x z)) (bit_and y z)

-- Σ₀ and Σ₁ of a round, σ₀ and σ₁ of the schedule.
big_sigma0 : ℕ → ℕ
unfolding rotate_right
big_sigma0 x = bit_xor (bit_xor (rotate_right 2 x) (rotate_right 13 x)) (rotate_right 22 x)

big_sigma1 : ℕ → ℕ
unfolding rotate_right
big_sigma1 x = bit_xor (bit_xor (rotate_right 6 x) (rotate_right 11 x)) (rotate_right 25 x)

small_sigma0 : ℕ → ℕ
unfolding rotate_right shift_right
small_sigma0 x = bit_xor (bit_xor (rotate_right 7 x) (rotate_right 18 x)) (shift_right 3 x)

small_sigma1 : ℕ → ℕ
unfolding rotate_right shift_right
small_sigma1 x = bit_xor (bit_xor (rotate_right 17 x) (rotate_right 19 x)) (shift_right 10 x)

-- One round, with its constant and its word of the schedule.
unfoldable pub round : ℕ → ℕ → Chain → Chain
unfolding add32 choose majority big_sigma0 big_sigma1
round k w s =
    let t1 = add32 (add32 (add32 s.h (big_sigma1 s.e)) (add32 (choose s.e s.f s.g) k)) w in
    let t2 = add32 (big_sigma0 s.a) (majority s.a s.b s.c) in
    record {
      a = add32 t1 t2;
      b = s.a;
      c = s.b;
      d = s.c;
      e = add32 s.d t1;
      f = s.e;
      g = s.f;
      h = s.g;
    }

-- The word that follows sixteen of the schedule.
unfoldable pub next_word : List ℕ → ℕ
unfolding add32 small_sigma0 small_sigma1
next_word (w0 ∷ w1 ∷ _ ∷ _ ∷ _ ∷ _ ∷ _ ∷ _ ∷ _ ∷ w9 ∷ _ ∷ _ ∷ _ ∷ _ ∷ w14 ∷ _) =
    add32 (add32 (small_sigma1 w14) w9) (add32 (small_sigma0 w1) w0)
next_word _ = 0

-- The rounds, over the constants left and the next sixteen words of the schedule.
unfoldable pub rounds : List ℕ → List ℕ → Chain → Chain
unfolding round next_word
rounds [] window s = s
rounds (k ∷ ks) [] s = s
rounds (k ∷ ks) (w ∷ window) s = rounds ks (window ++ next_word (w ∷ window) ∷ []) (round k w s)

unfoldable pub compress : List ℕ → Chain → Chain
unfolding rounds add32
compress block s =
    let t = rounds round_constants block s in
    record {
      a = add32 s.a t.a;
      b = add32 s.b t.b;
      c = add32 s.c t.c;
      d = add32 s.d t.d;
      e = add32 s.e t.e;
      f = add32 s.f t.f;
      g = add32 s.g t.g;
      h = add32 s.h t.h;
    }

-- The padded message, in blocks of sixteen words.
unfoldable pub absorb : List ℕ → Chain → Chain
unfolding compress
absorb (w0 ∷ w1 ∷ w2 ∷ w3 ∷ w4 ∷ w5 ∷ w6 ∷ w7 ∷ w8 ∷ w9 ∷ w10 ∷ w11 ∷ w12 ∷ w13 ∷ w14 ∷ w15 ∷ rest)
      s =
    absorb rest (
      compress
        (w0 ∷ w1 ∷ w2 ∷ w3 ∷ w4 ∷ w5 ∷ w6 ∷ w7 ∷ w8 ∷ w9 ∷ w10 ∷ w11 ∷ w12 ∷ w13 ∷ w14 ∷ w15 ∷ [])
        s)
absorb _ s = s

zeros : ℕ → List ℕ
zeros zero = []
zeros (suc n) = 0 ∷ zeros n

-- One bit, then zeros up to eight bytes below a multiple of 64, then the length in bits.
unfoldable pub pad : List ℕ → List ℕ
unfolding zeros bytes_of
pad message =
    let n = length message in
    message
    ++ 0x80
      ∷ (zeros ((119 - n % 64) % 64) ++ (bytes_of (n * 8 / 2 ^ 32) ++ bytes_of (n * 8 % 2 ^ 32)))

unfoldable pub digest_of : Chain → List ℕ
unfolding bytes_of
digest_of s =
    bytes_of s.a
    ++ (bytes_of s.b
        ++ (bytes_of s.c
            ++ (bytes_of s.d
                ++ (bytes_of s.e ++ (bytes_of s.f ++ (bytes_of s.g ++ bytes_of s.h))))))

-- `hashlib.sha256(message).digest()`
unfoldable pub sha256 : List ℕ → List ℕ
unfolding pad words_of absorb digest_of
sha256 message = digest_of (absorb (words_of (pad message)) initial)
