-- ===== src/Tests.antt =====
-- Runs of the service on small stores, at which the theorems are applied.
mod Stores
mod Tokens
mod Addresses
mod Records
mod Hashing
mod Flows
mod Objects
mod Errors
mod Sessions
mod Races
mod Unit
