-- ===== src/Fees.antt =====
-- src/fees: the cap on routing fees.
pub mod Policy
