-- ===== src/Repositories.antt =====
-- app/repositories/in_memory/*.py: one module for each repository, its proofs below it.
pub mod UserRepository
pub mod TenantRepository
pub mod MembershipRepository
pub mod InvitationRepository
pub mod EmailVerificationRepository
pub mod RefreshTokenRepository
