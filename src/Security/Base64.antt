-- ===== src/Security/Base64.antt =====
-- `secrets.token_urlsafe`: the URL-safe base64 of random bytes, without its padding.
pub mod RoundTrip
use Prim.Native.Nat.{ℕ, ◌+◌, ◌-◌, ◌*◌, ◌/◌, ◌%◌}
use flowtona.Common.{Text, List, [], ◌∷◌, ◌==◌, nat_eq, ltb, if◌then◌else◌}

-- A-Z, a-z, 0-9, then `-` and `_`.
unfoldable pub letter : ℕ → ℕ
letter i =
    if ltb i 26
    then 65 + i
    else if ltb i 52
    then 71 + i
    else if ltb i 62
    then i - 4
    else if i == 62
    then 45
    else 95

-- `base64.urlsafe_b64encode`; 61 is `=`.
unfoldable pub urlsafe_b64encode : List ℕ → Text
unfolding letter
urlsafe_b64encode [] = []
urlsafe_b64encode (a ∷ []) = letter (a / 4) ∷ letter (a % 4 * 16) ∷ 61 ∷ 61 ∷ []
urlsafe_b64encode (a ∷ b ∷ []) =
    letter (a / 4) ∷ letter (a % 4 * 16 + b / 16) ∷ letter (b % 16 * 4) ∷ 61 ∷ []
urlsafe_b64encode (a ∷ b ∷ c ∷ bytes) =
    letter (a / 4)
    ∷ letter (a % 4 * 16 + b / 16)
    ∷ letter (b % 16 * 4 + c / 64)
    ∷ letter (c % 64)
    ∷ urlsafe_b64encode bytes

-- `rstrip(c)` before the character `x`, by what is left of the text after it.
before : ℕ → ℕ → Text → Text
before c x [] = if x == c then [] else x ∷ []
before c x (y ∷ text) = x ∷ y ∷ text

unfoldable pub rstrip : ℕ → Text → Text
unfolding before
rstrip c [] = []
rstrip c (x ∷ text) = before c x (rstrip c text)

unfoldable pub token_urlsafe : List ℕ → Text
unfolding rstrip urlsafe_b64encode
token_urlsafe random = rstrip 61 (urlsafe_b64encode random)
