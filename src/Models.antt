-- ===== src/Models.antt =====
-- app/models/*.py: the domain entities and the checks that their constructors run.
pub mod User
pub mod Tenant
pub mod Membership
pub mod Invitation
pub mod EmailVerification
pub mod RefreshToken
