-- ===== src/Security.antt =====
-- app/security: passwords and tokens, and what app/security/hashing.py uses of Python's library.
pub mod Words
pub mod Sha256
pub mod Utf8
pub mod Hex
pub mod Base64
pub mod Hashing
