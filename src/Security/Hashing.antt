-- ===== src/Security/Hashing.antt =====
-- app/security/hashing.py
pub mod Tokens
use flowtona.Common.{ℕ, Text, Bool, true, false, List, Result}
use flowtona.Common.Outcome.{◌>>=◌, ok, err}
use flowtona.Exceptions.{Error, verification_error}
use flowtona.Settings.{Settings}
use flowtona.Security.Utf8.{encode}
use flowtona.Security.Sha256.{sha256}
use flowtona.Security.Hex.{hex}
use flowtona.Security.Base64.{token_urlsafe}

-- How `PasswordHasher.verify` of argon2 ends: it returns, or it raises VerifyMismatchError,
-- InvalidHash, or VerificationError itself.
pub data Verification : Type 0 where
  verified mismatch invalid_hash failed : Verification

-- argon2's `hash`, of a password and the salt that it draws, and `verify`, of a hash and a password.
pub record PasswordHasher : Type 0 where
  pub hash : Text → Text → Text
  pub verify : Text → Text → Verification

-- argon2's constructor, of the time cost, the memory cost in KiB and the parallelism, at the settings.
abbrev pub password_hasher : (ℕ → ℕ → ℕ → PasswordHasher) → Settings → PasswordHasher
password_hasher new settings =
    new settings.argon2_time_cost settings.argon2_memory_cost_kib settings.argon2_parallelism

unfoldable pub hash_password : PasswordHasher → Text → Text → Text
hash_password hasher salt password = hasher.hash password salt

-- `try`, and what `except (VerifyMismatchError, InvalidHash)` makes of it.
abbrev pub caught : Verification → Result Error Bool
caught verified = ok true
caught mismatch = ok false
caught invalid_hash = ok false
caught failed = err verification_error

unfoldable pub verify_password : PasswordHasher → Text → Text → Result Error Bool
verify_password hasher password password_hash = caught (hasher.verify password_hash password)

-- the default of `length_bytes`
abbrev pub default_length_bytes : ℕ
default_length_bytes = 32

-- `random` gives the bytes that the operating system draws, of a number.
unfoldable pub generate_secure_token : (ℕ → List ℕ) → ℕ → Text
generate_secure_token random length_bytes = token_urlsafe (random length_bytes)

unfoldable pub hash_token : Text → Result Error Text
hash_token token = do message ← encode token; ok (hex (sha256 message))
