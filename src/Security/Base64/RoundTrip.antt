-- ===== src/Security/Base64/RoundTrip.antt =====
-- A token gives back the random bytes, by a decoder of its own.
use Prim.Native.Nat.{ℕ, ◌+◌, ◌-◌, ◌*◌, ◌/◌, ◌%◌, ◌<◌}
use flowtona.Common.{
  ◌≡◌, refl, ap, ◌∙◌, Text, List, [], ◌∷◌, Bool, true, false, ◌||◌, ◌&&◌, leb, ltb, ◌==◌, nat_eq,
  if◌then◌else◌, arith, length,
}
use flowtona.Security.Hex.{AreBytes}
use flowtona.Security.Base64.{letter, urlsafe_b64encode, before, rstrip, token_urlsafe}

-- The text without padding, which `rstrip` is shown to leave.
unpadded : List ℕ → Text
unfolding letter
unpadded [] = []
unpadded (a ∷ []) = letter (a / 4) ∷ letter (a % 4 * 16) ∷ []
unpadded (a ∷ b ∷ []) = letter (a / 4) ∷ letter (a % 4 * 16 + b / 16) ∷ letter (b % 16 * 4) ∷ []
unpadded (a ∷ b ∷ c ∷ bytes) =
    letter (a / 4)
    ∷ letter (a % 4 * 16 + b / 16)
    ∷ letter (b % 16 * 4 + c / 64)
    ∷ letter (c % 64)
    ∷ unpadded bytes

letter_not_pad : (i : ℕ) → i < 64 → (letter i == 61) ≡ false
unfolding letter
letter_not_pad i h = ground arith

-- A character other than the padding stays, with what stays after it.
rstrip_keeps : (x : ℕ) (text : Text) → (x == 61) ≡ false → rstrip 61 (x ∷ text) ≡ x ∷ rstrip 61 text
unfolding rstrip before
rstrip_keeps x text other = go (rstrip 61 text)
  where
    go : (kept : Text) → before 61 x kept ≡ x ∷ kept
    go [] = ground arith
    go (y ∷ kept) = refl

keep :
    (i : ℕ) (text : Text) {kept : Text}
    → i < 64
    → rstrip 61 text ≡ kept
    → rstrip 61 (letter i ∷ text) ≡ letter i ∷ kept
keep i text h rest = rstrip_keeps (letter i) text (letter_not_pad i h) ∙ ap (λ t. letter i ∷ t) rest

no_pads : (rstrip 61 [] ≡ []) × (rstrip 61 (61 ∷ []) ≡ []) × (rstrip 61 (61 ∷ 61 ∷ []) ≡ [])
unfolding rstrip
no_pads = (refl, refl, refl)

rstrip-urlsafe_b64encode :
    (bytes : List ℕ) → AreBytes bytes → rstrip 61 (urlsafe_b64encode bytes) ≡ unpadded bytes
unfolding urlsafe_b64encode unpadded
rstrip-urlsafe_b64encode [] p = no_pads.0
rstrip-urlsafe_b64encode (a ∷ []) p =
    keep (a / 4) _ (omega arith) (keep (a % 4 * 16) _ (omega arith) no_pads.2)
rstrip-urlsafe_b64encode (a ∷ b ∷ []) p =
    keep (a / 4) _ (omega arith)
      (keep (a % 4 * 16 + b / 16) _ (omega arith) (keep (b % 16 * 4) _ (omega arith) no_pads.1))
rstrip-urlsafe_b64encode (a ∷ b ∷ c ∷ bytes) (pa, (pb, (pc, p))) = keep (a / 4) _ (omega arith) (
    keep (a % 4 * 16 + b / 16) _ (omega arith) (
      keep (b % 16 * 4 + c / 64) _ (omega arith)
        (keep (c % 64) _ (omega arith) (rstrip-urlsafe_b64encode bytes p))))

token_urlsafe-unpadded : (bytes : List ℕ) → AreBytes bytes → token_urlsafe bytes ≡ unpadded bytes
unfolding token_urlsafe
token_urlsafe-unpadded bytes p = rstrip-urlsafe_b64encode bytes p

-- The index of a letter.
abbrev pub index_of : ℕ → ℕ
index_of c =
    if c == 45
    then 62
    else if c == 95
    then 63
    else if ltb c 58
    then c + 4
    else if ltb c 91
    then c - 65
    else c - 71

abbrev pub decode : Text → List ℕ
decode (w ∷ x ∷ y ∷ z ∷ text) =
    (index_of w * 4 + index_of x / 16)
    ∷ (index_of x % 16 * 16 + index_of y / 4)
    ∷ (index_of y % 4 * 64 + index_of z)
    ∷ decode text
decode (w ∷ x ∷ y ∷ []) =
    (index_of w * 4 + index_of x / 16) ∷ (index_of x % 16 * 16 + index_of y / 4) ∷ []
decode (w ∷ x ∷ []) = (index_of w * 4 + index_of x / 16) ∷ []
decode _ = []

index_of-letter : (i : ℕ) → i < 64 → index_of (letter i) ≡ i
unfolding letter
index_of-letter i h = ground arith

decode-unpadded : (bytes : List ℕ) → AreBytes bytes → decode (unpadded bytes) ≡ bytes
unfolding unpadded
decode-unpadded [] p = refl
decode-unpadded (a ∷ []) p = ground (arith, index_of-letter (a / 4), index_of-letter (a % 4 * 16))
decode-unpadded (a ∷ b ∷ []) p = ground (
  arith,
  index_of-letter (a / 4),
  index_of-letter (a % 4 * 16 + b / 16),
  index_of-letter (b % 16 * 4),
)
decode-unpadded (a ∷ b ∷ c ∷ bytes) (pa, (pb, (pc, p))) = ground (
  arith,
  index_of-letter (a / 4),
  index_of-letter (a % 4 * 16 + b / 16),
  index_of-letter (b % 16 * 4 + c / 64),
  index_of-letter (c % 64),
  decode-unpadded bytes p,
)

-- What may stand in a URL as it is.
abbrev pub is_url_safe : ℕ → Bool
is_url_safe c =
    (leb 65 c && leb c 90)
    || (leb 97 c && leb c 122)
    || (leb 48 c && leb c 57)
    || c == 45
    || c == 95

abbrev pub AreUrlSafe : Text → Type 0
AreUrlSafe [] = Unit
AreUrlSafe (c ∷ text) = (is_url_safe c ≡ true) × AreUrlSafe text

letter-is_url_safe : (i : ℕ) → i < 64 → is_url_safe (letter i) ≡ true
unfolding letter
letter-is_url_safe i h = ground arith

unpadded-AreUrlSafe : (bytes : List ℕ) → AreBytes bytes → AreUrlSafe (unpadded bytes)
unfolding unpadded
unpadded-AreUrlSafe [] p = tt
unpadded-AreUrlSafe (a ∷ []) p =
    (letter-is_url_safe (a / 4) (omega arith), (letter-is_url_safe (a % 4 * 16) (omega arith), tt))
unpadded-AreUrlSafe (a ∷ b ∷ []) p = (
  letter-is_url_safe (a / 4) (omega arith),
  (
    letter-is_url_safe (a % 4 * 16 + b / 16) (omega arith),
    (letter-is_url_safe (b % 16 * 4) (omega arith), tt),
  ),
)
unpadded-AreUrlSafe (a ∷ b ∷ c ∷ bytes) (pa, (pb, (pc, p))) = (
  letter-is_url_safe (a / 4) (omega arith),
  (
    letter-is_url_safe (a % 4 * 16 + b / 16) (omega arith),
    (
      letter-is_url_safe (b % 16 * 4 + c / 64) (omega arith),
      (letter-is_url_safe (c % 64) (omega arith), unpadded-AreUrlSafe bytes p),
    ),
  ),
)

length-unpadded : (bytes : List ℕ) → length (unpadded bytes) ≡ (4 * length bytes + 2) / 3
unfolding unpadded
length-unpadded [] = omega arith
length-unpadded (a ∷ []) = omega arith
length-unpadded (a ∷ b ∷ []) = omega arith
length-unpadded (a ∷ b ∷ c ∷ bytes) = omega (arith, length-unpadded bytes)

-- The token of random bytes gives them back, has as many characters as their bits need at six to a character, and needs no escape in a URL.
pub token_urlsafe_lem :
    (random : List ℕ)
    → AreBytes random
    → (decode (token_urlsafe random) ≡ random)
      × (length (token_urlsafe random) ≡ (4 * length random + 2) / 3)
      × AreUrlSafe (token_urlsafe random)
token_urlsafe_lem random p =
    rw (token_urlsafe-unpadded random p)
      (decode-unpadded random p, length-unpadded random, unpadded-AreUrlSafe random p)
