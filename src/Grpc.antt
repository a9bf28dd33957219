-- ===== src/Grpc.antt =====
-- src/api/grpc: the event stream that the other services subscribe to.
pub mod Status
pub mod Service
pub mod Order
pub mod Clock
pub mod Backfill
pub mod Resume
