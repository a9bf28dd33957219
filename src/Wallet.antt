-- ===== src/Wallet.antt =====
-- src/wallet: who may act on which wallet.
pub mod Ownership
pub mod Cache
pub mod Safety
