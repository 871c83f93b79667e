-- ===== src/Security/Words.antt =====
-- 32-bit words and bytes, as native numbers.
use Prim.Native.Nat.{ℕ, ◌+◌, ◌-◌, ◌*◌, ◌/◌, ◌%◌, ◌^◌}
use flowtona.Common.{List, [], ◌∷◌}

unfoldable pub add32 : ℕ → ℕ → ℕ
add32 a b = (a + b) % 2 ^ 32

unfoldable pub not32 : ℕ → ℕ
not32 a = 2 ^ 32 - 1 - a

unfoldable pub rotate_right : ℕ → ℕ → ℕ
rotate_right n a = a / 2 ^ n + a % 2 ^ n * 2 ^ (32 - n)

unfoldable pub shift_right : ℕ → ℕ → ℕ
shift_right n a = a / 2 ^ n

-- The four bytes of a word, the highest first.
unfoldable pub bytes_of : ℕ → List ℕ
bytes_of w = w / 2 ^ 24 % 256 ∷ w / 2 ^ 16 % 256 ∷ w / 2 ^ 8 % 256 ∷ w % 256 ∷ []

-- The words of a row of bytes; fewer than four bytes at the end give none.
unfoldable pub words_of : List ℕ → List ℕ
words_of (a ∷ b ∷ c ∷ d ∷ bytes) = (a * 2 ^ 24 + b * 2 ^ 16 + c * 2 ^ 8 + d) ∷ words_of bytes
words_of _ = []
