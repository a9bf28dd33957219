-- ===== src/Payment.antt =====
-- src/payment: the `Payment` aggregate, the outbound counterpart of the invoice.
pub mod Event
pub mod Entity
pub mod Hydration
pub mod Lifecycle
pub mod Replay
pub mod Refinement
pub mod Order
pub mod Outcomes
pub mod Creation
