-- ===== src/Api.antt =====
-- src/api/graphql: what a client of the gateway is told of a payment.
pub mod Status
pub mod Stream
pub mod Subscription
pub mod Emission
pub mod History
pub mod Resumed
pub mod Mutation
pub mod MutationLaws
