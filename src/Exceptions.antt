-- ===== src/Exceptions.antt =====
-- What the service raises: the classes of app/repositories/exceptions.py with their structured
-- context, and the exceptions of Python, of pydantic and of argon2 that reach a caller.
pub mod Messages
use flowtona.Common.{ℕ, String, Text, Option, List, Result, ok, err}

-- A UUID is only compared and used as a key, so it is its 128-bit number.
abbrev pub Uuid : Type 0
Uuid = ℕ

-- `identifier: Any`: the repositories pass a UUID or a token hash.
pub data Identifier : Type 0 where
  by_uuid : Uuid → Identifier
  by_text : Text → Identifier

-- A `validation_error` has the message and the texts of the input that was refused, which pydantic
-- keeps with it.
pub data Error : Type 0 where
  duplicate_entry : String → String → Error
  record_not_found : String → Identifier → Error
  concurrent_update : String → Identifier → Option String → Option String → Error
  validation_error : String → List Text → Error
  value_error : String → Error
  not_implemented_error type_error key_error verification_error : Error

-- pydantic raises a ValidationError over the input where a validator raises a ValueError, and lets
-- the other exceptions pass.
abbrev pub over_input : {A : Type 0} → List Text → Result Error A → Result Error A
over_input texts (err (value_error why)) = err (validation_error why texts)
over_input texts r = r
