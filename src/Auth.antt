-- ===== src/Auth.antt =====
-- src/auth/: tokens of the spawned agents, minted by the authentication service.
pub mod Scopes
pub mod Minter
mod Tests
