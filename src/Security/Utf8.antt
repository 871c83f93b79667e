-- ===== src/Security/Utf8.antt =====
-- `str.encode("utf-8")`, over code points.
pub mod RoundTrip
use Prim.Native.Nat.{ℕ, ◌+◌, ◌/◌, ◌%◌, ◌^◌}
use flowtona.Common.{
  Text, Bool, not, ◌&&◌, ◌||◌, List, [], ◌∷◌, ◌++◌, Result, raise_if, leb, ltb, if◌then◌else◌,
}
use flowtona.Common.Outcome.{◌>>=◌, ◌>>◌, ok}
use flowtona.Exceptions.{Error, value_error}

-- A half of a surrogate pair has no encoding. Above 0x10ffff there is no character.
unfoldable pub is_encodable : ℕ → Bool
is_encodable c = ltb c 0xd800 || (leb 0xe000 c && leb c 0x10ffff)

unfoldable pub bytes_of_char : ℕ → List ℕ
bytes_of_char c =
    if ltb c 0x80
    then c ∷ []
    else if ltb c 0x800
    then (0xc0 + c / 2 ^ 6) ∷ (0x80 + c % 2 ^ 6) ∷ []
    else if ltb c 0x10000
    then (0xe0 + c / 2 ^ 12) ∷ (0x80 + c / 2 ^ 6 % 2 ^ 6) ∷ (0x80 + c % 2 ^ 6) ∷ []
    else (0xf0 + c / 2 ^ 18)
      ∷ (0x80 + c / 2 ^ 12 % 2 ^ 6)
      ∷ (0x80 + c / 2 ^ 6 % 2 ^ 6)
      ∷ (0x80 + c % 2 ^ 6)
      ∷ []

-- UnicodeEncodeError is a ValueError.
unfoldable pub encode : Text → Result Error (List ℕ)
unfolding is_encodable bytes_of_char
encode [] = ok []
encode (c ∷ text) = do
  raise_if (not (is_encodable c)) (value_error "surrogates not allowed")
  rest ← encode text
  ok (bytes_of_char c ++ rest)
