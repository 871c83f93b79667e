-- ===== src/Protocols.antt =====
-- app/repositories/*_repository.py: what a repository promises, apart from how it is stored.
pub mod Users
pub mod Tenants
pub mod Memberships
pub mod Invitations
pub mod Verifications
pub mod RefreshTokens
