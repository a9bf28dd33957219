-- ===== src/Symphony.antt =====
-- src/symphony: the spend-authorization handshake with Symphony.
pub mod Client
pub mod Requests
pub mod Decision
