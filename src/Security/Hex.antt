-- ===== src/Security/Hex.antt =====
-- `bytes.hex()`, which `hexdigest` returns.
use Prim.Native.Nat.{ℕ, ◌+◌, ◌*◌, ◌/◌, ◌%◌, ◌<◌}
use flowtona.Common.{
  ◌≡◌, refl, Text, List, [], ◌∷◌, Bool, true, ◌&&◌, ◌||◌, leb, ltb, if◌then◌else◌, arith, length,
}

unfoldable pub hex_digit : ℕ → ℕ
hex_digit n = if ltb n 10 then 48 + n else 87 + n

unfoldable pub hex : List ℕ → Text
unfolding hex_digit
hex [] = []
hex (b ∷ bytes) = hex_digit (b / 16) ∷ hex_digit (b % 16) ∷ hex bytes

abbrev pub AreBytes : List ℕ → Type 0
AreBytes [] = Unit
AreBytes (b ∷ bytes) = (b < 256) × AreBytes bytes

-- Digits and the letters from a to f.
abbrev pub is_hex_digit : ℕ → Bool
is_hex_digit c = (leb 48 c && leb c 57) || (leb 97 c && leb c 102)

abbrev pub AreHexDigits : Text → Type 0
AreHexDigits [] = Unit
AreHexDigits (c ∷ text) = (is_hex_digit c ≡ true) × AreHexDigits text

pub hex_injective : (xs ys : List ℕ) → AreBytes xs → AreBytes ys → hex xs ≡ hex ys → xs ≡ ys
unfolding hex
hex_injective [] [] p q same = refl
hex_injective [] (y ∷ ys) p q same = absurd (ground arith)
hex_injective (x ∷ xs) [] p q same = absurd (ground arith)
hex_injective (x ∷ xs) (y ∷ ys) p q same = ground (arith, hex_injective xs ys p.1 q.1)

pub length-hex : (xs : List ℕ) → length (hex xs) ≡ 2 * length xs
unfolding hex
length-hex [] = omega arith
length-hex (x ∷ xs) = omega (arith, length-hex xs)

pub hex-AreHexDigits : (xs : List ℕ) → AreBytes xs → AreHexDigits (hex xs)
unfolding hex
hex-AreHexDigits [] p = tt
hex-AreHexDigits (x ∷ xs) (p, ps) = (ground arith, (ground arith, hex-AreHexDigits xs ps))
