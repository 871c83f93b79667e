-- ===== src/Flows.antt =====
-- Parts that meet in a flow of the service: app/security/hashing.py gives what the repositories
-- of app/repositories store and look up by, and PermissionService reads what they keep.
pub mod Login
pub mod Redemption
pub mod Sessions
pub mod Confirmation
