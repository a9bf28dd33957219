-- ===== src/Invoice.antt =====
-- src/invoice: the `Invoice` aggregate.
pub mod Event
pub mod Entity
pub mod Hydration
pub mod Replay
pub mod Lifecycle
pub mod Refinement
pub mod Order
pub mod Outcomes
pub mod Creation
pub mod Repo
