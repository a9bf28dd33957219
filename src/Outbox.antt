-- ===== src/Outbox.antt =====
-- src/outbox: the outbox, through which the gateway reports its events.
pub mod Event
pub mod Wire
pub mod Texts
pub mod Sequence
pub mod Store
pub mod Order
pub mod Pages
pub mod Listen
pub mod Delivery
