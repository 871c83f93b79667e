-- ===== src/Email.antt =====
-- app/utils/email.py: the form of an address under which it is stored and looked up.
pub mod Normal
use flowtona.Common.{ℕ, ◌+◌, Text, Bool, ◌&&◌, ◌||◌, [], ◌∷◌, leb, if◌then◌else◌, ◌==◌, nat_eq}
use mathlib.Core.Path.{◌≡◌}
use mathlib.Core.Option.{Option, some}
use mathlib.Core.List.{map, reverse}

-- `str.isspace` of one character
unfoldable pub is_space : ℕ → Bool
is_space c =
    (leb 9 c && leb c 13)
    || (leb 28 c && leb c 32)
    || c == 133
    || c == 160
    || c == 5760
    || (leb 8192 c && leb c 8202)
    || c == 8232
    || c == 8233
    || c == 8239
    || c == 8287
    || c == 12288

-- `str.lower` of one character below 256; a character from there on is left as it is.
unfoldable pub lower : ℕ → ℕ
lower c =
    if (leb 65 c && leb c 90) || (leb 192 c && leb c 214) || (leb 216 c && leb c 222)
    then c + 32
    else c

unfoldable pub strip_left : Text → Text
unfolding is_space
strip_left [] = []
strip_left (c ∷ s) = if is_space c then strip_left s else c ∷ s

unfoldable pub strip : Text → Text
unfolding strip_left
strip s = reverse (strip_left (reverse (strip_left s)))

unfoldable pub normalise_email : Text → Text
unfolding strip lower
normalise_email email = map lower (strip email)

-- The check of addresses accepts what it has itself put out, and leaves it as it is.
abbrev pub IsStable : (Text → Option Text) → Type 0
IsStable email_str = (t a : Text) → email_str t ≡ some a → email_str a ≡ some a
