-- ===== src/Primitives.antt =====
-- src/primitives: the value types that the components share.
pub mod Amount
pub mod Hex
pub mod Types
