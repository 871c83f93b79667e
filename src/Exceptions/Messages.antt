-- ===== src/Exceptions/Messages.antt =====
-- The messages of app/repositories/exceptions.py: what the constructors give to `Exception`, and
-- with it the `str` of a UUID and the `repr` of a text.
pub mod Identity
use Prim.Native.Nat.{ℕ, ◌+◌, ◌*◌, ◌/◌, ◌%◌, ◌^◌}
use flowtona.Common.{
  codes, String, Text, Bool, true, false, not, ◌&&◌, ◌||◌, Option, none, some, List, [], ◌∷◌, ◌++◌,
  ◌==◌, nat_eq, ltb, if◌then◌else◌, is_listed,
}
use flowtona.Security.Hex.{hex}
use flowtona.Exceptions.{
  Uuid, Identifier, Error, by_uuid, by_text, duplicate_entry, record_not_found, concurrent_update,
}

-- Byte `i` of a number, from the lowest.
abbrev pub byte : ℕ → ℕ → ℕ
byte i k = k / 2 ^ (8 * i) % 256

-- `str(UUID)`: the sixteen bytes in hexadecimal, in five groups.
unfoldable pub str_uuid : Uuid → Text
str_uuid k =
    hex (byte 15 k ∷ byte 14 k ∷ byte 13 k ∷ byte 12 k ∷ [])
    ++ 45
      ∷ (hex (byte 11 k ∷ byte 10 k ∷ [])
          ++ 45
            ∷ (hex (byte 9 k ∷ byte 8 k ∷ [])
                ++ 45
                  ∷ (hex (byte 7 k ∷ byte 6 k ∷ [])
                      ++ 45
                        ∷ hex (
                            byte 5 k ∷ byte 4 k ∷ byte 3 k ∷ byte 2 k ∷ byte 1 k ∷ byte 0 k ∷ []))))

-- One character in `repr`, inside quotes of the given kind; the characters from 128 on stay.
repr_char : ℕ → ℕ → Text
repr_char quote c =
    if c == 92 || c == quote
    then 92 ∷ c ∷ []
    else if c == 10
    then 92 ∷ 110 ∷ []
    else if c == 13
    then 92 ∷ 114 ∷ []
    else if c == 9
    then 92 ∷ 116 ∷ []
    else if ltb c 32 || c == 127
    then 92 ∷ 120 ∷ hex (c ∷ [])
    else c ∷ []

repr_chars : ℕ → Text → Text
unfolding repr_char
repr_chars quote [] = []
repr_chars quote (c ∷ text) = repr_char quote c ++ repr_chars quote text

-- Double quotes only around a text with a single quote and no double one.
unfoldable pub repr : Text → Text
unfolding repr_chars is_listed
repr text =
    let quote = if is_listed 39 text && not (is_listed 34 text) then 34 else 39 in
    quote ∷ repr_chars quote text ++ quote ∷ []

abbrev pub repr_option : Option String → Text
repr_option none = codes "None"
repr_option (some s) = repr (codes s)

abbrev pub str_identifier : Identifier → Text
str_identifier (by_uuid k) = str_uuid k
str_identifier (by_text t) = t

-- The end of the message of ConcurrentUpdateError.
abbrev pub in_state : Option String → Option String → Text
in_state expected actual =
    codes " was not in the expected state (expected="
    ++ repr_option expected
    ++ codes ", actual="
    ++ repr_option actual
    ++ codes ")"

-- `str(e)` for the three classes that have a message of their own.
abbrev pub message : Error → Option Text
message (duplicate_entry entity field) =
    some (codes "duplicate " ++ codes entity ++ codes " for field " ++ repr (codes field))
message (record_not_found entity identifier) =
    some (codes entity ++ (codes " " ++ (str_identifier identifier ++ codes " not found")))
message (concurrent_update entity identifier expected actual) =
    some (codes entity ++ (codes " " ++ (str_identifier identifier ++ in_state expected actual)))
message _ = none
