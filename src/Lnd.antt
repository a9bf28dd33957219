-- ===== src/Lnd.antt =====
-- src/lnd: the types of the LND adapter, and how the messages of LND are read.
pub mod Types
pub mod Wire
pub mod WireLaws
pub mod Client
pub mod ClientLaws
pub mod Listen
pub mod ListenLaws
pub mod Dispatch
