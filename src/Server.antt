-- ===== src/Server.antt =====
-- src/server: how a request becomes a caller.
pub mod Jwks
pub mod Auth
