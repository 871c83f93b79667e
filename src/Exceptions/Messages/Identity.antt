-- ===== src/Exceptions/Messages/Identity.antt =====
-- What a message tells of the record and of the token hash that it is about.
use Prim.Native.Nat.{ℕ, ◌^◌, ◌<◌}
use flowtona.Common.{codes, ◌≡◌, arith, String, Text, Option, some, List, [], ◌∷◌, ◌++◌}
use flowtona.Security.Hex.{hex, hex_injective, AreBytes}
use flowtona.Exceptions.{Uuid, by_uuid, record_not_found, concurrent_update}
use flowtona.Exceptions.Messages.{byte, str_uuid, in_state, message}

abbrev bytes : Uuid → List ℕ
bytes k =
    byte 15 k
    ∷ byte 14 k
    ∷ byte 13 k
    ∷ byte 12 k
    ∷ byte 11 k
    ∷ byte 10 k
    ∷ byte 9 k
    ∷ byte 8 k
    ∷ byte 7 k
    ∷ byte 6 k
    ∷ byte 5 k
    ∷ byte 4 k
    ∷ byte 3 k
    ∷ byte 2 k
    ∷ byte 1 k
    ∷ byte 0 k
    ∷ []

bytes-AreBytes : (k : Uuid) → AreBytes (bytes k)
bytes-AreBytes k = omega arith

bytes_injective : (j k : Uuid) → j < 2 ^ 128 → k < 2 ^ 128 → bytes j ≡ bytes k → j ≡ k
bytes_injective j k p q same = ground arith

-- The text of a UUID at the start of a longer text.
str_uuid-append :
    (j k : Uuid) (a b : Text) → str_uuid j ++ a ≡ str_uuid k ++ b → hex (bytes j) ≡ hex (bytes k)
unfolding str_uuid hex
str_uuid-append j k a b same = ground arith

append_cancel : (s a b : Text) → s ++ a ≡ s ++ b → a ≡ b
append_cancel [] a b same = same
append_cancel (c ∷ s) a b same = append_cancel s a b (ground arith)

some_injective : {a b : Text} → some a ≡ some b → a ≡ b
some_injective same = ground arith

same_uuid :
    (s : Text) (j k : Uuid) (a b : Text)
    → j < 2 ^ 128
    → k < 2 ^ 128
    → s ++ 32 ∷ (str_uuid j ++ a) ≡ s ++ 32 ∷ (str_uuid k ++ b)
    → j ≡ k
same_uuid s j k a b p q same =
    let whole : 32 ∷ (str_uuid j ++ a) ≡ 32 ∷ (str_uuid k ++ b) =
      append_cancel s (32 ∷ (str_uuid j ++ a)) (32 ∷ (str_uuid k ++ b)) same in
    let later : str_uuid j ++ a ≡ str_uuid k ++ b = ground arith in
    bytes_injective j k p q (
      hex_injective (bytes j) (bytes k) (bytes-AreBytes j) (bytes-AreBytes k)
        (str_uuid-append j k a b later))

-- Of two UUIDs, which have 128 bits, the messages of RecordNotFoundError for one entity are the same only if the UUIDs are, and the messages of ConcurrentUpdateError for one entity are the same, in whatever states, only if the UUIDs are.
pub message_identifies :
    (entity : String) (j k : Uuid) (expected actual expected' actual' : Option String)
    → j < 2 ^ 128
    → k < 2 ^ 128
    → (message (record_not_found entity (by_uuid j)) ≡ message (record_not_found entity (by_uuid k))
        → j ≡ k)
      × (message (concurrent_update entity (by_uuid j) expected actual)
            ≡ message (concurrent_update entity (by_uuid k) expected' actual')
          → j ≡ k)
message_identifies entity j k expected actual expected' actual' p q = (
  λ same.
      same_uuid (codes entity) j k (codes " not found") (codes " not found") p q
        (some_injective same),
  λ same.
      same_uuid (codes entity) j k (in_state expected actual) (in_state expected' actual') p q
        (some_injective same),
)
